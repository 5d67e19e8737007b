-- ===== src/Build/Signing/Evidence.antt =====
-- src/build/signing.py: what the finding that an APK is unsigned rests on.
use app_generation_microserv.Base.{
  String, ◌≡◌, ◌≢◌, refl, inl, inr, true, Option, none, some, List, [], ◌∷◌, arith, Bool-cases,
}
use app_generation_microserv.Build.Signing.{
  Verdict, Apk, v1_signature_entries, says_unsigned, inspect_signature, inspect_found,
  inspect_with_apksigner, is_unsigned,
}

-- What the code takes for the absence of a signature. It is no proof of it: `DOES NOT VERIFY` is also
-- said of an APK whose signature is broken, and an APK that is no zip lists no entry.
pub record TakenForUnsigned (apk : Apk) (w : Verdict) : Type 0 where
  pub there : apk.exists ≡ true
  pub asked : apk.verdict ≡ some w
  pub rejected : w.returncode ≢ 0
  pub said : says_unsigned w.output ≡ true
  pub no_entries : v1_signature_entries apk.v1_entries ≡ []

inspect_with-evidence :
    (w : Verdict) (entries : List String)
    → is_unsigned (inspect_with_apksigner w entries).state ≡ true
    → (w.returncode ≢ 0) × (says_unsigned w.output ≡ true) × (entries ≡ [])
unfolding inspect_with_apksigner
inspect_with-evidence w [] h = ground (arith, h)
inspect_with-evidence w (x ∷ xs) h = ground (arith, h)

inspect_found-evidence :
    (o : Option Verdict) (entries : List String)
    → is_unsigned (inspect_found o entries).state ≡ true
    → (w : Verdict) × (o ≡ some w)
      × (w.returncode ≢ 0)
      × (says_unsigned w.output ≡ true)
      × (entries ≡ [])
unfolding inspect_found
inspect_found-evidence none [] h = cc
inspect_found-evidence none (x ∷ xs) h = cc
inspect_found-evidence (some w) entries h =
    let (code, said, bare) = inspect_with-evidence w entries h in (w, refl, code, said, bare)

-- An APK is found unsigned only where `apksigner` has rejected it with one of the two texts.
pub inspect_evidence :
    (apk : Apk)
    → is_unsigned (inspect_signature apk).state ≡ true
    → (w : Verdict) × TakenForUnsigned apk w
unfolding inspect_signature
inspect_evidence apk h = elim (Bool-cases apk.exists) [
  | inr gone ↦ absurd (ground (arith, gone, h))
  | inl there ↦
      let (w, asked, code, said, bare) =
        inspect_found-evidence apk.verdict (v1_signature_entries apk.v1_entries) (rw there at h) in
      (w, record { there = there; asked = asked; rejected = code; said = said; no_entries = bare })
]
