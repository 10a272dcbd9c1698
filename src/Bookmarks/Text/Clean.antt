-- ===== src/Bookmarks/Text/Clean.antt =====
-- What main/bookmarks.c lets into a bookmark.
use mathlib.Core.Option.{some-injective}
use vetera_bridge.Prelude.{
  ℕ, ◌+◌, ◌-◌, ◌≤◌, ◌<◌, ◌≡◌, refl, ap, ◌∙◌, subst, inl, inr, Bool, true, false, not, ◌&&◌, ◌||◌,
  some, List, [], ◌∷◌, ◌++◌, arith, leb, ◌==◌, if◌then◌else◌, Bool-cases, length, All, codes,
}
use vetera_bridge.Bookmarks.Text.{
  is_control, skip_blanks, copy_clean, trim_end, sanitize, starts_with_ci, is_bare_host,
  http_prefix, with_scheme, normalize_url,
}
use vetera_bridge.Ppp.Names.{to_lower}
use vetera_bridge.Ppp.Handshake.{printed, starts_with, contains}

abbrev pub IsClean : List ℕ → Type 0
IsClean = All (λ b. is_control b ≡ false)

abbrev pub last_is_space : List ℕ → Bool
last_is_space [] = false
last_is_space (b ∷ []) = b == b' '
last_is_space (b ∷ (c ∷ bs)) = last_is_space (c ∷ bs)

copy_clean_lem :
    (room : ℕ) (s : List ℕ) → IsClean (copy_clean room s) × (length (copy_clean room s) ≤ room)
unfolding copy_clean
copy_clean_lem room [] = (tt, omega arith)
copy_clean_lem room (b ∷ bs) = elim (Bool-cases (room == 0)) [
  | inl full ↦ ground arith
  | inr free ↦ elim (Bool-cases (is_control b)) [
    | inl control ↦ ground (arith, copy_clean_lem room bs)
    | inr printed ↦ ground (arith, copy_clean_lem (room - 1) bs)
  ]
]

trim_one :
    (b : ℕ) (r : List ℕ)
    → last_is_space r ≡ false
    → last_is_space (if length r == 0 && b == b' ' then [] else b ∷ r) ≡ false
trim_one b [] h = ground arith
trim_one b (c ∷ cs) h = ground arith

trim_end_lem :
    (s : List ℕ) → (last_is_space (trim_end s) ≡ false) × (length (trim_end s) ≤ length s)
unfolding trim_end
trim_end_lem [] = (refl, omega arith)
trim_end_lem (b ∷ bs) =
    let ih = trim_end_lem bs in (trim_one b (trim_end bs) ih.0, ground (arith, ih.1))

trim_end-IsClean : (s : List ℕ) → IsClean s → IsClean (trim_end s)
unfolding trim_end
trim_end-IsClean [] k = tt
trim_end-IsClean (b ∷ bs) k = ground (arith, k, trim_end-IsClean bs k.1)

pub sanitize_lem :
    (s : List ℕ) (n : ℕ)
    → IsClean (sanitize s n)
      × (length (sanitize s n) ≤ n - 1)
      × (last_is_space (sanitize s n) ≡ false)
unfolding sanitize
sanitize_lem s n =
    let copied = copy_clean_lem (n - 1) (skip_blanks s) in
    let trimmed = trim_end_lem (copy_clean (n - 1) (skip_blanks s)) in
    (
      trim_end-IsClean (copy_clean (n - 1) (skip_blanks s)) copied.0,
      omega (arith, copied.1, trimmed.1),
      trimmed.0,
    )

trim_end_id : (s : List ℕ) → last_is_space s ≡ false → trim_end s ≡ s
unfolding trim_end
trim_end_id [] h = refl
trim_end_id (b ∷ []) h = ground arith
trim_end_id (b ∷ (c ∷ cs)) h = ground (arith, trim_end_id (c ∷ cs) h)

copy_clean_id : (room : ℕ) (s : List ℕ) → IsClean s → length s ≤ room → copy_clean room s ≡ s
unfolding copy_clean
copy_clean_id room [] k h = refl
copy_clean_id room (b ∷ bs) k h = ground (arith, k.0, copy_clean_id (room - 1) bs k.1)

abbrev has_scheme : List ℕ → Bool
has_scheme u = starts_with_ci u http_prefix || starts_with_ci u (codes "https://")

pub scheme_ne : (u : List ℕ) → has_scheme u ≡ true → (length u == 0) ≡ false
unfolding starts_with_ci
scheme_ne [] h = ground arith
scheme_ne (b ∷ bs) h = ground arith

skip_blanks_id : (u : List ℕ) → has_scheme u ≡ true → skip_blanks u ≡ u
unfolding skip_blanks starts_with_ci to_lower
skip_blanks_id [] h = refl
skip_blanks_id (b ∷ bs) h = ground arith

sanitize_id :
    (u : List ℕ) (n : ℕ)
    → has_scheme u ≡ true
    → IsClean u
    → length u < n
    → last_is_space u ≡ false
    → sanitize u n ≡ u
unfolding sanitize
sanitize_id u n scheme k short end =
    ap (λ x. trim_end (copy_clean (n - 1) x)) (skip_blanks_id u scheme)
    ∙ ap trim_end (copy_clean_id (n - 1) u k (omega (arith, short)))
    ∙ trim_end_id u end

-- An address that can stand in a bookmark.
pub record IsAddress (u : List ℕ) (n : ℕ) : Type 0 where
  pub clean : IsClean u
  pub short : length u < n
  pub trimmed : last_is_space u ≡ false
  pub scheme : (starts_with_ci u (codes "http://") || starts_with_ci u (codes "https://")) ≡ true
  pub separator : contains u (codes "://") ≡ true

prefixed-IsAddress :
    (s : List ℕ) (n : ℕ)
    → IsClean s
    → length s + 7 < n
    → last_is_space s ≡ false
    → IsAddress (http_prefix ++ s) n
unfolding starts_with_ci to_lower contains starts_with
prefixed-IsAddress s n k short end = record {
  clean = (refl, (refl, (refl, (refl, (refl, (refl, (refl, k)))))));
  short = omega (arith, short);
  trimmed = after_slash s end;
  scheme = refl;
  separator = refl;
}
  where
    after_slash : (s : List ℕ) → last_is_space s ≡ false → last_is_space (b'/' ∷ s) ≡ false
    after_slash [] h = refl
    after_slash (c ∷ cs) h = h

with_scheme-IsAddress :
    (s : List ℕ) (n : ℕ) (u : List ℕ)
    → IsClean s
    → length s < n
    → last_is_space s ≡ false
    → with_scheme s n ≡ some u
    → IsAddress u n
unfolding with_scheme
with_scheme-IsAddress s n u k short end h = elim (Bool-cases (contains s (codes "://"))) [
  | inl found ↦ elim (Bool-cases (has_scheme s)) [
    | inl scheme ↦
        let same : s ≡ u = some-injective s u (ground arith) in
        subst (λ x. IsAddress x n) same
          (record { clean = k; short = short; trimmed = end; scheme = scheme; separator = found })
    | inr other ↦ absurd (ground arith)
  ]
  | inr bare ↦ elim (Bool-cases (not (is_bare_host s) || leb n (length s + 7))) [
    | inl refused ↦ absurd (ground arith)
    | inr taken ↦
        let same : http_prefix ++ s ≡ u = some-injective (http_prefix ++ s) u (ground arith) in
        subst (λ x. IsAddress x n) same (prefixed-IsAddress s n k (ground arith) end)
  ]
]

-- An address that is taken is printable, shorter than the buffer, does not end in a space, and starts
-- with http:// or https://, so no other scheme gets into a link, whatever was submitted.
pub normalize_url-IsAddress :
    (s : List ℕ) (n : ℕ) (u : List ℕ) → normalize_url s n ≡ some u → IsAddress u n
unfolding normalize_url
normalize_url-IsAddress s n u h =
    let clean = sanitize s 320 in
    elim (Bool-cases (length clean == 0 || leb n (length clean))) [
      | inl refused ↦ absurd (ground arith)
      | inr taken ↦
          let k = sanitize_lem s 320 in
          with_scheme-IsAddress clean n u k.0 (ground arith) k.2 (ground arith)
    ]

-- An address that was taken is taken again as it is, so that saving an edited bookmark does not
-- change an address that was left alone; the buffer has at most 320 bytes.
pub normalize_url_again :
    (s : List ℕ) (n : ℕ) (u : List ℕ)
    → n ≤ 320
    → normalize_url s n ≡ some u
    → normalize_url u n ≡ some u
unfolding normalize_url with_scheme
normalize_url_again s n u fits h =
    let a = normalize_url-IsAddress s n u h in
    let same = sanitize_id u 320 a.scheme a.clean (omega (arith, a.short, fits)) a.trimmed in
    let some_byte : (length u == 0) ≡ false = scheme_ne u a.scheme in
    rw (same, some_byte, a.separator, a.scheme) (ground (arith, a.short))
