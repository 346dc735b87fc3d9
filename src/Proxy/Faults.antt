-- ===== src/Proxy/Faults.antt =====
-- What the protocol does not survive: records that hold more than one line, and a client that sends
-- nothing or an unknown type.
use webmesh_vdi.Prelude.{
  ℕ, ◌+◌, ◌≤◌, ◌≡◌, ◌⊎◌, inl, inr, refl, ◌∙◌, ap, true, false, none, some, List, [], ◌∷◌, ◌++◌,
  arith, length, length-append, leb, suc, sym, zero,
}
use mathlib.Core.Path.{subst}
use webmesh_vdi.Prelude.Bytes.{Bytes, Free}
use webmesh_vdi.Prelude.Lines.{newline, drop_cr}
use webmesh_vdi.Proxy.Wire.{
  put_back, read_full, line, absorb, feed, scan_line, growths, start_space, read_line,
}
use webmesh_vdi.Proxy.Lines.{concat, line_of-some}
use webmesh_vdi.Proxy.Conn.{
  Conn, ok, failed, first_byte, read_byte, read_type, set_type, new_conn, close_on_error,
  close_failed, close, took, ◌>>=◌, and_then, end_of_file,
}
use webmesh_vdi.Proxy.Host.{Host}
use webmesh_vdi.Proxy.Server.{
  Handler, display_handler, audio_handler, stat_handler, get_handler, put_handler, Served, panicked,
  unhandled, streaming, served, handler, run_handler, dispatch, handle_conn, answer_read,
  handle_stat, handle_get, handle_put,
}
use webmesh_vdi.Proxy.Copied.{concat-put_back}
use webmesh_vdi.Proxy.Exchange.{accepted}

feed-joined :
    (left : List ℕ) (space : ℕ) (p q : Bytes)
    → Free newline p
    → length p + 1 + length q ≤ space
    → feed left space [] (p ++ newline ∷ q) ≡ line (drop_cr p) []
unfolding feed absorb
feed-joined [] space p q f h =
    let fits : leb (length (p ++ newline ∷ q)) space ≡ true =
      ground (arith, length-append p (newline ∷ q)) in
    rw (fits, absorb, line_of-some p q f) refl
feed-joined (g ∷ left) space p q f h =
    let fits : leb (length (p ++ newline ∷ q)) space ≡ true =
      ground (arith, length-append p (newline ∷ q)) in
    rw (fits, absorb, line_of-some p q f) refl

-- A line that comes in one record with the bytes behind it, all within the first buffer of the
-- scanner, is read, and these bytes are lost: the next read starts at the next record.
pub read_line-loses :
    (p q : Bytes) (rest : List Bytes)
    → Free newline p
    → length p + 1 + length q ≤ start_space
    → read_line ((p ++ newline ∷ q) ∷ rest) ≡ (some (drop_cr p), rest)
unfolding read_line scan_line
read_line-loses p q rest f h = rw (scan_line, feed-joined growths start_space p q f h) refl

read_full-none : (records : List Bytes) → concat records ≡ [] → (read_full 1 records).0 ≡ []
unfolding read_full
read_full-none [] h = refl
read_full-none ([] ∷ rs) h = read_full-none rs h
read_full-none ((c ∷ r) ∷ rs) h = cc h

cons_inj : (c d : ℕ) (s t : Bytes) → c ∷ s ≡ d ∷ t → (c ≡ d) × (s ≡ t)
cons_inj c d s t h = (ground arith, ground arith)

read_full-one :
    (records : List Bytes) (b : ℕ) (t : Bytes)
    → concat records ≡ b ∷ t
    → (rest : List Bytes) × (read_full 1 records ≡ (b ∷ [], rest)) × (concat rest ≡ t)
unfolding read_full
read_full-one [] b t h = cc h
read_full-one ([] ∷ rs) b t h = read_full-one rs b t h
read_full-one ((c ∷ r) ∷ rs) b t h =
    let one : leb 1 (length (c ∷ r)) ≡ true = ground arith in
    (
      put_back r rs,
      rw one (ap (λ (d : ℕ). (d ∷ [], put_back r rs)) (cons_inj c b (r ++ concat rs) t h).0),
      concat-put_back r rs ∙ (cons_inj c b (r ++ concat rs) t h).1,
    )

first_byte-none :
    (p : Bytes × List Bytes) (c : Conn) → p.0 ≡ [] → first_byte p c ≡ (failed end_of_file, c)
unfolding first_byte
first_byte-none ([], rest) c h = refl
first_byte-none (b ∷ s, rest) c h = cc h

-- The first byte of a connection and its handler, by the protocol.
abbrev pub Protocol : ℕ → Handler → Type 0
Protocol b h =
    ((b ≡ 1) × (h ≡ display_handler))
    ⊎ ((b ≡ 2) × (h ≡ audio_handler))
    ⊎ ((b ≡ 3) × (h ≡ stat_handler))
    ⊎ ((b ≡ 4) × (h ≡ get_handler))
    ⊎ ((b ≡ 5) × (h ≡ put_handler))

-- A byte selects the handler of the protocol, or is none of its types.
handler-Protocol :
    (b : ℕ)
    → ((h : Handler) × (handler b ≡ some h) × Protocol b h)
      ⊎ ((handler b ≡ none) × ((b ≡ 0) ⊎ (6 ≤ b)))
unfolding handler
handler-Protocol zero = inr (refl, inl refl)
handler-Protocol (suc zero) = inl (display_handler, refl, inl (refl, refl))
handler-Protocol (suc (suc zero)) = inl (audio_handler, refl, inr (inl (refl, refl)))
handler-Protocol (suc (suc (suc zero))) = inl (stat_handler, refl, inr (inr (inl (refl, refl))))
handler-Protocol (suc (suc (suc (suc zero)))) =
    inl (get_handler, refl, inr (inr (inr (inl (refl, refl)))))
handler-Protocol (suc (suc (suc (suc (suc zero))))) =
    inl (put_handler, refl, inr (inr (inr (inr (refl, refl)))))
handler-Protocol (suc (suc (suc (suc (suc (suc b)))))) =
    inr (ground (arith, handler), inr (omega arith))

module _ {S : Type 0} (host : Host S) where
  -- What a handler makes of a connection: the two streams get it as it is, and a file handler serves
  -- it and closes it.
  abbrev pub Closes : Conn × S → Served S → Type 0
  Closes (d, t) end = (end ≡ served d t) × (d.closed ≡ true)

  abbrev pub Runs : Handler → Conn → S → Served S → Type 0
  Runs display_handler c s end = end ≡ streaming display_handler c s
  Runs audio_handler c s end = end ≡ streaming audio_handler c s
  Runs stat_handler c s end = Closes (handle_stat host c s) end
  Runs get_handler c s end = Closes (handle_get host c s) end
  Runs put_handler c s end = Closes (handle_put host c s) end

  -- How a connection is taken: without a byte, its goroutine panics; with a first byte that is no
  -- type, it stays open and nobody has it; with any other first byte, the handler of that type runs.
  pub record Panics (records : List Bytes) (s : S) : Type 0 where
    pub no_byte : concat records ≡ []
    pub conn : Conn
    pub run : handle_conn host (accepted records) s ≡ panicked conn s

  pub record Forgotten (records : List Bytes) (s : S) : Type 0 where
    pub rtype : ℕ
    pub behind : Bytes
    pub first : concat records ≡ rtype ∷ behind
    pub no_type : (rtype ≡ 0) ⊎ (6 ≤ rtype)
    pub conn : Conn
    pub run : handle_conn host (accepted records) s ≡ unhandled conn s
    pub still_open : conn.closed ≡ false

  pub record Handled (records : List Bytes) (s : S) : Type 0 where
    pub rtype : ℕ
    pub behind : Bytes
    pub first : concat records ≡ rtype ∷ behind
    pub chosen : Handler
    pub by_type : Protocol rtype chosen
    pub conn : Conn
    pub runs : Runs chosen conn s (handle_conn host (accepted records) s)
    pub input_behind : concat conn.input ≡ behind
    pub given_open : conn.closed ≡ false

  run_handler-Runs : (h : Handler) (c : Conn) (s : S) → Runs h c s (run_handler host (some h) c s)
  unfolding run_handler handle_stat handle_get handle_put answer_read
  run_handler-Runs display_handler c s = refl
  run_handler-Runs audio_handler c s = refl
  run_handler-Runs stat_handler c s = (refl, refl)
  run_handler-Runs get_handler c s = (refl, refl)
  run_handler-Runs put_handler c s = (refl, refl)

  handle_conn-Panics : (records : List Bytes) (s : S) → concat records ≡ [] → Panics records s
  unfolding handle_conn dispatch new_conn close_on_error read_type read_byte ◌>>=◌ and_then
  handle_conn-Panics records s h = record {
    no_byte = h;
    conn = close (accepted records);
    run =
        ap (λ p. dispatch host (close_failed (and_then p set_type)) s)
          (first_byte-none (read_full 1 records) (accepted records) (read_full-none records h));
  }

  -- The first byte is the type.
  new_conn-one :
      (records : List Bytes) (b : ℕ) (t : Bytes)
      → concat records ≡ b ∷ t
      → (c : Conn) × (new_conn (accepted records) ≡ (ok b, c))
        × (concat c.input ≡ t)
        × (c.closed ≡ false)
  unfolding new_conn close_on_error read_type read_byte ◌>>=◌ and_then
  new_conn-one records b t h =
      let (rest, one, same) = read_full-one records b t h in
      (
        record (took (b ∷ []) rest (accepted records)) { rtype = b },
        ap (λ p. close_failed (and_then (first_byte p (accepted records)) set_type)) one
            ∙ unfold first_byte in refl,
        same,
        refl,
      )

  handle_conn-first :
      (records : List Bytes) (s : S) (b : ℕ) (t : Bytes)
      → concat records ≡ b ∷ t
      → Forgotten records s ⊎ Handled records s
  unfolding handle_conn dispatch
  handle_conn-first records s b t h =
      let (c, new, same, is_open) = new_conn-one records b t h in
      let run = ap (λ p. dispatch host p s) new in
      elim (handler-Protocol b) [
        | inr (e, no_type) ↦ inl record {
          rtype = b;
          behind = t;
          first = h;
          no_type = no_type;
          conn = c;
          run = run ∙ ap (λ k. run_handler host k c s) e ∙ unfold run_handler in refl;
          still_open = is_open;
        }
        | inl (chosen, e, by_type) ↦ inr record {
          rtype = b;
          behind = t;
          first = h;
          chosen = chosen;
          by_type = by_type;
          conn = c;
          runs =
              subst (Runs chosen c s) (sym (run ∙ ap (λ k. run_handler host k c s) e))
                (run_handler-Runs chosen c s);
          input_behind = same;
          given_open = is_open;
        }
      ]

  any_first :
      (records : List Bytes) (s : S) (t : Bytes)
      → concat records ≡ t
      → Panics records s ⊎ (Forgotten records s ⊎ Handled records s)
  any_first records s [] h = inl (handle_conn-Panics records s h)
  any_first records s (b ∷ t) h = inr (handle_conn-first records s b t h)

  -- Every connection is taken in one of three ways, by the bytes that its client sends. If there are
  -- none, the proxy panics. If the first byte is 0 or more than 5, the connection stays open and
  -- nobody handles it. A first byte of 1, 2, 3, 4 or 5 gives the open connection, with the bytes
  -- behind it as its input, to the handler for the display, audio, stat, get or put requests in this
  -- order; the first two stream on it as it is, and each of the others ends with the connection
  -- closed.
  pub handle_conn-cases :
      (records : List Bytes) (s : S) → Panics records s ⊎ (Forgotten records s ⊎ Handled records s)
  handle_conn-cases records s = any_first records s (concat records) refl
