-- ===== src/Proxy/Sni/Fuel.antt =====
-- The loops of the parser in main/http_proxy.c end: fuel as long as the buffer is enough.
use mathlib.Core.Path.{fun_ext}
use vetera_bridge.Prelude.{
  ℕ, zero, suc, ◌+◌, ◌-◌, ◌≤◌, ◌≡◌, refl, ap, ◌&&◌, List, arith, ltb, leb, ◌==◌, if◌then◌else◌,
  length,
}
use vetera_bridge.Proxy.Sni.{Found, absent, with_byte, with_word, copy_name, name_loop, ext_loop}

name_loop_fuel :
    (f g : ℕ) (b : List ℕ) (on q qe : ℕ)
    → qe - q ≤ f
    → qe - q ≤ g
    → name_loop f b on q qe ≡ name_loop g b on q qe
unfolding name_loop
name_loop_fuel zero zero b on q qe h k = refl
name_loop_fuel zero (suc g) b on q qe h k = ground (arith, h)
name_loop_fuel (suc f) zero b on q qe h k = ground (arith, k)
name_loop_fuel (suc f) (suc g) b on q qe h k =
    ap
      (λ (r : ℕ → Found).
        if leb (q + 3) qe
        then with_byte b q (λ nt. with_word b (q + 1) (λ nl.
          if ltb qe (q + 3 + nl)
          then absent
          else if nt == 0 && ltb 0 nl && ltb nl on
          then copy_name b (q + 3) nl
          else r nl))
        else absent)
      (fun_ext
        (λ nl. name_loop_fuel f g b on (q + 3 + nl) qe (omega (arith, h)) (omega (arith, k))))

-- However long the fuel of the outer loop is made beyond the bytes that are left, the result stays.
pub ext_loop_fuel :
    (f g : ℕ) (b : List ℕ) (on p ext_end : ℕ)
    → ext_end - p ≤ f
    → ext_end - p ≤ g
    → ext_loop f b on p ext_end ≡ ext_loop g b on p ext_end
unfolding ext_loop
ext_loop_fuel zero zero b on p ext_end h k = refl
ext_loop_fuel zero (suc g) b on p ext_end h k = ground (arith, h)
ext_loop_fuel (suc f) zero b on p ext_end h k = ground (arith, k)
ext_loop_fuel (suc f) (suc g) b on p ext_end h k =
    ap
      (λ (r : ℕ → Found).
        if leb (p + 4) ext_end
        then with_word b p (λ type. with_word b (p + 2) (λ len.
          if ltb ext_end (p + 4 + len)
          then absent
          else if type == 0
          then name_loop (length b) b on (p + 4 + 2) (p + 4 + len)
          else r len))
        else absent)
      (fun_ext
        (λ len. ext_loop_fuel f g b on (p + 4 + len) ext_end (omega (arith, h)) (omega (arith, k))))
