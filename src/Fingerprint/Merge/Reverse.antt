-- ===== src/Fingerprint/Merge/Reverse.antt =====
-- What becomes of the keys whose priority a caller reverses.
use quipucords.Prelude.{
  String, ◌≡◌, ◌∙◌, ap, true, false, some, List, contains, arith, string_eq, if◌then◌else◌,
}
use quipucords.Prelude.Dict.{lookup, has_key}
use quipucords.Fingerprint.Model.{ok, Fingerprint, is_table}
use quipucords.Fingerprint.Merge.{as_set, as_tuple, null_at, has_sudo, get, merge_fingerprint}
use quipucords.Fingerprint.Merge.Facts.{takes, merge_fingerprint-Settled}

-- Take a fact that the first fingerprint has, not `None`, where the second's was not read with sudo
-- and both merges succeed. With the keys to reverse in a tuple, the first's value is kept, though the key is among them; with
-- the same keys in a set, the second's is taken.
pub reverse_needs_set :
    (ks : List String) (p m r s : Fingerprint) (k : String)
    → is_table k ≡ false
    → contains k ks ≡ true
    → has_key k p.facts ≡ true
    → null_at k p ≡ false
    → has_sudo k m ≡ false
    → merge_fingerprint (some (as_tuple ks)) p m ≡ ok r
    → merge_fingerprint (some (as_set ks)) p m ≡ ok s
    → (lookup k r.facts ≡ lookup k p.facts) × (lookup k s.facts ≡ some (get k m.facts))
reverse_needs_set ks p m r s k plain among there value sudo h h' =
    let kept = merge_fingerprint-Settled (some (as_tuple ks)) p m r k plain h in
    let taken = merge_fingerprint-Settled (some (as_set ks)) p m s k plain h' in
    let no : takes (some (as_tuple ks)) p m k ≡ false = ground arith in
    let yes_ : takes (some (as_set ks)) p m k ≡ true = ground arith in
    (
      kept.fact ∙ ap (λ b. if b then some (get k m.facts) else lookup k p.facts) no,
      taken.fact ∙ ap (λ b. if b then some (get k m.facts) else lookup k p.facts) yes_,
    )
