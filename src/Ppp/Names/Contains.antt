-- ===== src/Ppp/Names/Contains.antt =====
-- What it means that a name contains a model number (main/ppp_link.c).
use vetera_bridge.Prelude.{
  ℕ, ◌≡◌, refl, ap, ap₂, ◌≢◌, ◌↔◌, inl, inr, Bool, true, false, ◌&&◌, List, [], ◌∷◌, ◌++◌, map,
  ◌==◌, ==→eq, ==_refl, Bool-cases,
}
use vetera_bridge.Ppp.Names.{to_lower, starts_nocase, contains_nocase}

-- A part of a text reads as the needle, but for the case of letters.
pub record Inside (hay needle : List ℕ) : Type 0 where
  pub before : List ℕ
  pub part : List ℕ
  pub after : List ℕ
  pub split : hay ≡ before ++ (part ++ after)
  pub same : map to_lower part ≡ map to_lower needle

and_true : (a b : Bool) → (a && b) ≡ true → (a ≡ true) × (b ≡ true)
and_true true b h = (refl, h)
and_true false b h = cc

cons_inj : (a b : ℕ) (xs ys : List ℕ) → a ∷ xs ≡ b ∷ ys → (a ≡ b) × (xs ≡ ys)
cons_inj a b xs ys h = (cc, cc)

starts_nocase_sound :
    (hay needle : List ℕ)
    → starts_nocase hay needle ≡ true
    → (part : List ℕ) × (after : List ℕ) × (hay ≡ part ++ after)
      × (map to_lower part ≡ map to_lower needle)
unfolding starts_nocase
starts_nocase_sound hay [] h = ([], hay, refl, refl)
starts_nocase_sound [] (n ∷ ns) h = cc
starts_nocase_sound (x ∷ hs) (n ∷ ns) h =
    let both = and_true (to_lower x == to_lower n) (starts_nocase hs ns) h in
    let (part, after, split, same) = starts_nocase_sound hs ns both.1 in
    (x ∷ part, after, ap (λ l. x ∷ l) split, ap₂ ◌∷◌ (==→eq _ _ both.0) same)

starts_nocase_complete :
    (part after needle : List ℕ)
    → map to_lower part ≡ map to_lower needle
    → starts_nocase (part ++ after) needle ≡ true
unfolding starts_nocase
starts_nocase_complete part after [] h = refl
starts_nocase_complete [] after (n ∷ ns) h = cc
starts_nocase_complete (x ∷ part) after (n ∷ ns) h =
    let same = cons_inj _ _ _ _ h in
    rw (same.0, ==_refl (to_lower n)) (starts_nocase_complete part after ns same.1)

contains_sound : (hay needle : List ℕ) → contains_nocase hay needle ≡ true → Inside hay needle
unfolding contains_nocase
contains_sound [] needle h = cc
contains_sound (x ∷ hs) needle h = elim (Bool-cases (starts_nocase (x ∷ hs) needle)) [
  | inl t ↦
      let (part, after, split, same) = starts_nocase_sound (x ∷ hs) needle t in
      record { before = []; part = part; after = after; split = split; same = same }
  | inr f ↦
      let i = contains_sound hs needle (rw f at h) in
      record {
        before = x ∷ i.before;
        part = i.part;
        after = i.after;
        split = ap (λ l. x ∷ l) i.split;
        same = i.same;
      }
]

contains_complete :
    (before part after needle : List ℕ)
    → needle ≢ []
    → map to_lower part ≡ map to_lower needle
    → contains_nocase (before ++ (part ++ after)) needle ≡ true
unfolding contains_nocase
contains_complete [] [] after [] ne h = absurd (ne refl)
contains_complete [] [] after (n ∷ ns) ne h = cc
contains_complete [] (x ∷ part) after needle ne h =
    rw (starts_nocase_complete (x ∷ part) after needle h) refl
contains_complete (b ∷ before) part after needle ne h =
    elim (Bool-cases (starts_nocase (b ∷ (before ++ (part ++ after))) needle)) [
      | inl t ↦ rw t refl
      | inr f ↦ rw f (contains_complete before part after needle ne h)
    ]

-- `contains_nocase` finds a non-empty needle exactly if some part of the text reads as the needle but
-- for the case of ASCII letters.
pub contains_nocase_iff :
    (hay needle : List ℕ) → needle ≢ [] → (contains_nocase hay needle ≡ true) ↔ Inside hay needle
contains_nocase_iff hay needle ne = (
  contains_sound hay needle,
  λ i. rw i.split (contains_complete i.before i.part i.after needle ne i.same),
)
