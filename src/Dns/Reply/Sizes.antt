-- ===== src/Dns/Reply/Sizes.antt =====
-- The replies that main/dns_fwd.c makes fit the buffer.
use vetera_bridge.Prelude.{
  ℕ, ◌+◌, ◌-◌, ◌≤◌, min, ◌≡◌, refl, List, ◌++◌, arith, length, take, length-append, length-take,
  length-drop,
}
use vetera_bridge.Dns.Reply.{
  header, qsection, with_question, no_answer, gateway_record, with_answer, gateway_answer,
  make_captive_reply, make_servfail_reply,
}

pub length-qsection : (q : List ℕ) → length (qsection q) ≡ min 200 (length q) - 12
length-qsection q = omega (arith, length-drop {0} 12 (take 200 q), length-take {0} 200 q)

length-with_question :
    (head qs : List ℕ) (rmax : ℕ)
    → length head ≡ 12
    → 12 ≤ rmax
    → (length (with_question head qs rmax) ≤ rmax)
      × (length (with_question head qs rmax) ≤ 12 + length qs)
unfolding with_question
length-with_question head qs rmax e h = ground (arith, length-append head qs)

length-with_answer :
    (head qs : List ℕ) (rmax : ℕ)
    → length head ≡ 12
    → (length (with_answer head qs rmax) ≤ rmax)
      × (length (with_answer head qs rmax) ≤ 28 + length qs)
unfolding with_answer
length-with_answer head qs rmax e =
    ground (arith, length-append head (qs ++ gateway_record), length-append qs gateway_record)

length-no_answer :
    (q : List ℕ) (rcode rmax : ℕ) → 12 ≤ rmax → length (no_answer q rcode rmax) ≤ min rmax 200
unfolding no_answer
length-no_answer q rcode rmax h =
    omega
      (arith, length-with_question (header q rcode 0) (qsection q) rmax refl h, length-qsection q)

length-gateway_answer : (q : List ℕ) (rmax : ℕ) → length (gateway_answer q rmax) ≤ min rmax 216
unfolding gateway_answer
length-gateway_answer q rmax =
    omega (arith, length-with_answer (header q 0 1) (qsection q) rmax refl, length-qsection q)

-- No reply that the forwarder makes itself is longer than the buffer that it is written to, whatever
-- the query, and none is longer than 216 bytes, so none fills the 512 bytes of the task's buffer.
pub local_replies_fit :
    (q : List ℕ) (rmax : ℕ)
    → (length (make_captive_reply q rmax) ≤ min rmax 216)
      × (length (make_servfail_reply q rmax) ≤ min rmax 200)
unfolding make_captive_reply make_servfail_reply
local_replies_fit q rmax =
    ground
      (arith, length-no_answer q 2 rmax, length-no_answer q 3 rmax, length-gateway_answer q rmax)
