-- ===== src/FileServer/Files/Store.antt =====
-- Reading back what was stored.
use system_programming_cse.Common.{
  ◌≡◌, refl, true, Bool-cases, inl, inr, some, [], ◌∷◌, if◌then◌else◌, arith, Text, text_eq,
  text_eq-eq, text_eq_refl,
}
use system_programming_cse.FileServer.Files.{Files, find, store}

-- Two texts that are equal to a third are equal to each other.
text_eq_trans : (r s t : Text) → text_eq r t ≡ true → text_eq s t ≡ true → text_eq r s ≡ true
text_eq_trans r s t e f = rw (text_eq-eq r t e) (rw (text_eq-eq s t f) (text_eq_refl t))

-- A file that was stored is found with its content, and all others as before.
pub find-store :
    (name other content : Text) (fs : Files)
    → find other (store name content fs)
      ≡ (if text_eq name other then some content else find other fs)
find-store name other content [] = refl
find-store name other content ((n, s) ∷ fs) = elim (Bool-cases (text_eq n name)) [
  | inl hit ↦ let e = text_eq-eq n name hit in ground (arith, hit, e)
  | inr miss ↦
      let rest = find-store name other content fs in
      elim (Bool-cases (text_eq n other)) [
        | inl e ↦ elim (Bool-cases (text_eq name other)) [
          | inl f ↦ let t = text_eq_trans n name other e f in cc
          | inr f ↦ ground (arith, miss, e, f)
        ]
        | inr e ↦ ground (arith, miss, e, rest)
      ]
]
