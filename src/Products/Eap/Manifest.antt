-- ===== src/Products/Eap/Manifest.antt =====
-- The manifest of EAP 5 (`versions_eap_presence`, quipucords/fingerprinter/jboss_eap.py).
use quipucords.Prelude.{
  String, ◌≡◌, ◌≢◌, refl, sym, ◌∙◌, ap, Bool, true, false, Option, List, [], ◌∷◌, string_eq, arith,
  Bool-cases, inl, inr,
}
use quipucords.Prelude.Dict.{Dict, lookup, values}
use quipucords.Text.{codes, begins}
use quipucords.Json.{Value, truthy, str, arr, obj, null, bool, int, float}
use quipucords.Fingerprint.Model.{
  Result, ok, ◌>>=◌, >>=-ok_parts, ok_injective, err≢ok, present, Presence, unknown,
}
use quipucords.Products.Values.{items}
use quipucords.Products.Eap.Classify.{
  versions_eap_presence, eap_classifications, classification_of, is_eap, any_eap,
}

abbrev none_eap : Dict String String → Bool
none_eap [] = true
none_eap ((k, c) ∷ d) = elim (begins (codes "EAP") (codes c)) [ true ↦ false | false ↦ none_eap d ]

lookup-none_eap :
    (k : String) (d : Dict String String) → none_eap d ≡ true → is_eap (lookup k d) ≡ false
lookup-none_eap k [] h = refl
lookup-none_eap k ((j, c) ∷ d) h = ground (arith, lookup-none_eap k d)

classification-not_eap :
    (v : Value) (c : Option String) → classification_of v ≡ ok c → is_eap c ≡ false
classification-not_eap (str v) c h =
    sym (ap is_eap (ok_injective h)) ∙ lookup-none_eap v eap_classifications refl
classification-not_eap (arr vs) c h = absurd (err≢ok h)
classification-not_eap (obj fs) c h = absurd (err≢ok h)
classification-not_eap null c h = sym (ap is_eap (ok_injective h))
classification-not_eap (bool b) c h = sym (ap is_eap (ok_injective h))
classification-not_eap (int n) c h = sym (ap is_eap (ok_injective h))
classification-not_eap (float n) c h = sym (ap is_eap (ok_injective h))

presence_of : Value → Bool → Result Presence
presence_of v b = elim b [ true ↦ items v >>= λ vs. any_eap (values vs) | false ↦ ok unknown ]

any_eap_unknown : (vs : List Value) (p : Presence) → any_eap vs ≡ ok p → p ≡ unknown
any_eap_unknown [] p run = sym (ok_injective run)
any_eap_unknown (v ∷ vs) p run =
    let r = >>=-ok_parts (classification_of v) _ run in
    any_eap_unknown vs p (
      sym (
        ap (λ b. elim b [ true ↦ ok present | false ↦ any_eap vs ])
          (classification-not_eap v r.0 r.1))
      ∙ r.2)

versions_eap_presence_unknown :
    (jar_versions : Value) (p : Presence) → versions_eap_presence jar_versions ≡ ok p → p ≡ unknown
unfolding versions_eap_presence presence_of
versions_eap_presence_unknown v p run = elim (Bool-cases (truthy v)) [
  | inl there ↦
      let r = >>=-ok_parts (items v) _ (sym (ap (presence_of v) there) ∙ run) in
      any_eap_unknown (values r.0) p r.2
  | inr missing ↦ sym (ok_injective (sym (ap (presence_of v) missing) ∙ run))
]

-- Whatever versions the manifest of EAP 5 has, `versions_eap_presence` does not return `PRESENT`: no
-- classification starts with "EAP".
pub versions_eap_presence_never :
    (jar_versions : Value) → versions_eap_presence jar_versions ≢ ok present
versions_eap_presence_never v run = cc (versions_eap_presence_unknown v present run)
