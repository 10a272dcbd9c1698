-- ===== src/Dns/Reply/Captive.antt =====
-- The captive answer of main/dns_fwd.c to a well-formed query.
use vetera_bridge.Prelude.{
  ℕ, suc, ◌+◌, ◌*◌, ◌≤◌, ◌≡◌, refl, sym, ap, ◌∙◌, List, [], ◌∷◌, ◌++◌, arith, ◌==◌, if◌then◌else◌,
  length, get_or, All, length-append, length-drop, take_of_le,
}
use vetera_bridge.Dns.Reply.{
  byte_at, word_at, skip_name, header, with_question, no_answer, gateway_record, with_answer,
  gateway_answer, make_captive_reply,
}
use vetera_bridge.Dns.Cache.{question}
use vetera_bridge.Dns.Reply.Names.{IsLabel, encode_name, skip_name-encode_name}

-- A query with one question: a header of twelve bytes, a name of labels, a type and a class, and
-- whatever follows (an EDNS record, say).
pub record IsQuery (q : List ℕ) (qtype : ℕ) : Type 0 where
  pub before : List ℕ
  pub labels : List (List ℕ)
  pub type_hi : ℕ
  pub type_lo : ℕ
  pub class_hi : ℕ
  pub class_lo : ℕ
  pub rest : List ℕ
  pub header_size : length before ≡ 12
  pub labels_ok : All IsLabel labels
  pub bytes : q ≡ before ++ (encode_name labels ++ (type_hi ∷ type_lo ∷ class_hi ∷ class_lo ∷ rest))
  pub type_is : type_hi * 256 + type_lo ≡ qtype

-- The walk of the code ends at the type.
abbrev off_of : (q : List ℕ) {t : ℕ} → IsQuery q t → ℕ
off_of q k = 12 + length (encode_name k.labels)

length-query : (q : List ℕ) {t : ℕ} (k : IsQuery q t) → length q ≡ off_of q k + (4 + length k.rest)
length-query q k =
    let end = k.type_hi ∷ k.type_lo ∷ k.class_hi ∷ k.class_lo ∷ k.rest in
    omega (
      arith,
      ap length k.bytes,
      length-append k.before (encode_name k.labels ++ end),
      length-append (encode_name k.labels) end,
      k.header_size,
    )

skip_name_query : (q : List ℕ) {t : ℕ} (k : IsQuery q t) → skip_name (length q) q 12 ≡ off_of q k
skip_name_query q k =
    skip_name-encode_name k.labels (length q) q k.before _ 12 k.labels_ok k.bytes
      (sym k.header_size) (omega arith) (omega (arith, length-query q k))

get_or-append : (xs ys : List ℕ) (i : ℕ) → get_or (xs ++ ys) (length xs + i) 0 ≡ get_or ys i 0
get_or-append [] ys i = ap (λ k. get_or ys k 0) (omega arith)
get_or-append (x ∷ xs) ys i = ap (λ k. get_or (x ∷ (xs ++ ys)) k 0) suc_add ∙ get_or-append xs ys i
  where
    suc_add : length (x ∷ xs) + i ≡ suc (length xs + i)
    suc_add = omega arith

byte_at_query :
    (q : List ℕ) {t : ℕ} (k : IsQuery q t) (j i : ℕ)
    → j ≡ off_of q k + i
    → byte_at q j ≡ get_or (k.type_hi ∷ k.type_lo ∷ k.class_hi ∷ k.class_lo ∷ k.rest) i 0
byte_at_query q k j i e =
    let end = k.type_hi ∷ k.type_lo ∷ k.class_hi ∷ k.class_lo ∷ k.rest in
    let name = encode_name k.labels in
    let e' : j ≡ length k.before + (length name + i) = omega (arith, k.header_size) in
    ap (λ l. byte_at l j) k.bytes
    ∙ ap (λ n. byte_at (k.before ++ (name ++ end)) n) e'
    ∙ get_or-append k.before (name ++ end) (length name + i)
    ∙ get_or-append name end i

word_at_query : (q : List ℕ) {t : ℕ} (k : IsQuery q t) → word_at q (off_of q k) ≡ t
word_at_query q k =
    rw (byte_at_query q k (off_of q k) 0 (omega arith), byte_at_query q k (off_of q k + 1) 1 refl)
      k.type_is

-- A well-formed query of one question, of at most 200 bytes, gets the captive portal's answer where
-- the buffer has room for it: an A query gets back all that followed its header, and one A record
-- with the bridge's address; any other query gets back all that followed its header, no answer and
-- the response code NXDOMAIN; both carry the query's id.
pub captive_reply_lem :
    (q : List ℕ) {t : ℕ} (rmax : ℕ)
    → IsQuery q t
    → length q ≤ 200
    → length q + 16 ≤ rmax
    → make_captive_reply q rmax ≡ (
        if t == 1
        then header q 0 1 ++ (question q ++ gateway_record)
        else header q 3 0 ++ question q)
unfolding make_captive_reply gateway_answer no_answer with_answer with_question
captive_reply_lem q {t} rmax k short room =
    rw (take_of_le 200 q short, skip_name_query q k, word_at_query q k)
      (ground (arith, length-query q k, length-drop 12 q))
