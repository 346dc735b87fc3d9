-- ===== src/Proxy/Copied.antt =====
-- What an upload leaves in its file: io.CopyN of pkg/proxyproto/server/handlers.go.
use webmesh_vdi.Prelude.{
  ℕ, zero, suc, ◌-◌, ◌≤◌, ◌<◌, ◌≡◌, refl, sym, ◌∙◌, ap, inl, inr, true, List, [], ◌∷◌, ◌++◌, arith,
  length, length-append, leb, Bool-cases,
}
use mathlib.Core.List.{append_assoc, append-nil}
use webmesh_vdi.Prelude.Bytes.{Bytes}
use webmesh_vdi.Proxy.Wire.{take, drop, put_back}
use webmesh_vdi.Proxy.Lines.{concat, take-append, drop-append}
use webmesh_vdi.Proxy.Conn.{ok, failed, end_of_file}
use webmesh_vdi.Proxy.Host.{Host}
use webmesh_vdi.Proxy.Server.{copy_n, after_write}

-- The file at a path takes what is written at its end, and a change of its owner leaves its content
-- alone. `stored` reads the content off the state.
pub record Stores {S : Type 0} (host : Host S) (path : Bytes) : Type 0 where
  pub stored : S → Bytes
  pub written : S → Bytes → S
  pub owned : S → S
  pub writes : (s : S) (r : Bytes) → host.write_file path r s ≡ (ok 0, written s r)
  pub appends : (s : S) (r : Bytes) → stored (written s r) ≡ stored s ++ r
  pub chowns : (s : S) → host.chown path s ≡ (ok 0, owned s)
  pub keeps : (s : S) → stored (owned s) ≡ stored s

pub concat-put_back : (r : Bytes) (rs : List Bytes) → concat (put_back r rs) ≡ r ++ concat rs
concat-put_back [] rs = refl
concat-put_back (c ∷ r) rs = refl

suc_sub : (n m : ℕ) → n - m ≡ suc n - suc m
suc_sub n m = omega arith

take-append_all :
    (r q : Bytes) (n : ℕ) → length r ≤ n → take n (r ++ q) ≡ r ++ take (n - length r) q
take-append_all [] q n h = ap (λ (m : ℕ). take m q) (omega arith)
take-append_all (c ∷ r) q zero h = absurd (omega arith)
take-append_all (c ∷ r) q (suc n) h =
    ap (◌∷◌ c) (take-append_all r q n (omega arith))
    ∙ ap (λ (k : ℕ). c ∷ (r ++ take k q)) (suc_sub n (length r))

drop-append_all : (r q : Bytes) (n : ℕ) → length r ≤ n → drop n (r ++ q) ≡ drop (n - length r) q
drop-append_all [] q n h = ap (λ (m : ℕ). drop m q) (omega arith)
drop-append_all (c ∷ r) q zero h = absurd (omega arith)
drop-append_all (c ∷ r) q (suc n) h =
    drop-append_all r q n (omega arith) ∙ ap (λ (k : ℕ). drop k q) (suc_sub n (length r))

module _ {S : Type 0} (host : Host S) (path : Bytes) (file : Stores host path) where
  -- Where the connection has the bytes, they are appended to the file, and the rest stays.
  pub record Copied (n : ℕ) (rs : List Bytes) (s : S) : Type 0 where
    pub left : List Bytes
    pub final : S
    pub copied : copy_n host path n rs s ≡ (ok 0, left, final)
    pub content : file.stored final ≡ file.stored s ++ take n (concat rs)
    pub remaining : concat left ≡ drop n (concat rs)

  pub copy_n-Copied : (n : ℕ) (rs : List Bytes) (s : S) → n ≤ length (concat rs) → Copied n rs s
  unfolding copy_n after_write
  copy_n-Copied zero rs s h = record {
    left = rs;
    final = s;
    copied = refl;
    content = sym (append-nil (file.stored s));
    remaining = refl;
  }
  copy_n-Copied (suc n) [] s h = absurd (omega arith)
  copy_n-Copied (suc n) (r ∷ rs) s h = elim (Bool-cases (leb (length r) n)) [
    | inl e ↦
        let rest =
          copy_n-Copied (suc n - length r) rs (file.written s r)
            (ground (arith, length-append r (concat rs))) in
        record {
          left = rest.left;
          final = rest.final;
          copied = rw (e, file.writes s r) rest.copied;
          content =
              rest.content
              ∙ (rw
                  (
                    file.appends s r,
                    append_assoc (file.stored s) r (take (suc n - length r) (concat rs)),
                    take-append_all r (concat rs) (suc n) (ground arith),
                  )
                  refl);
          remaining = rest.remaining ∙ sym (drop-append_all r (concat rs) (suc n) (ground arith));
        }
    | inr e ↦ record {
      left = put_back (drop (suc n) r) rs;
      final = file.written s (take (suc n) r);
      copied = rw (e, file.writes s (take (suc n) r)) refl;
      content =
          file.appends s (take (suc n) r)
          ∙ ap (λ t. file.stored s ++ t) (sym (take-append (suc n) r (concat rs) (ground arith)));
      remaining =
          concat-put_back (drop (suc n) r) rs
          ∙ sym (drop-append (suc n) r (concat rs) (ground arith));
    }
  ]

  -- Where the connection ends before, all of its bytes are in the file.
  pub record Cut (n : ℕ) (rs : List Bytes) (s : S) : Type 0 where
    pub final : S
    pub cut : copy_n host path n rs s ≡ (failed end_of_file, [], final)
    pub content : file.stored final ≡ file.stored s ++ concat rs

  pub copy_n-Cut : (n : ℕ) (rs : List Bytes) (s : S) → length (concat rs) < n → Cut n rs s
  unfolding copy_n after_write
  copy_n-Cut zero rs s h = absurd (omega arith)
  copy_n-Cut (suc n) [] s h = record {
    final = s;
    cut = refl;
    content = sym (append-nil (file.stored s));
  }
  copy_n-Cut (suc n) (r ∷ rs) s h =
      let fits : leb (length r) n ≡ true = ground (arith, length-append r (concat rs)) in
      let rest =
        copy_n-Cut (suc n - length r) rs (file.written s r)
          (omega (arith, length-append r (concat rs))) in
      record {
        final = rest.final;
        cut = rw (fits, file.writes s r) rest.cut;
        content =
            rest.content ∙ (rw (file.appends s r, append_assoc (file.stored s) r (concat rs)) refl);
      }
