-- ===== src/Screen/Print/Strings.antt =====
-- puts and printf of student-distrib/lib.c on strings without conversions.
use linux_based_os.Prelude.{
  ℕ, zero, suc, ◌+◌, ◌^◌, ◌<◌, ◌≡◌, ◌≢◌, ap, sym, ◌∙◌, arith, ◌==◌, true, false, Bytes, byte_at,
  some, ne→==, eq→==,
}
use linux_based_os.Cstring.{address_space}
use linux_based_os.Cstring.Scan.{HasLength}
use linux_based_os.Screen.{Screen, putc}
use linux_based_os.Screen.Print.{
  puts, puts_loop, printf, printf_loop, printf_round, Printing, Arguments,
}

-- The screen after `n` characters of a string, from place `i` on.
unfoldable pub put_all : ℕ → ℕ → Bytes → Screen → Screen
put_all zero i str s = s
put_all (suc n) i str s = put_all n (i + 1) str (putc s (byte_at str i))

puts_loop_lem :
    (fuel n i m : ℕ) (s : Screen) (str : Bytes)
    → HasLength str m
    → m ≡ i + n
    → n < fuel
    → puts_loop fuel s str i ≡ some (m, put_all n i str s)
unfolding puts_loop put_all
puts_loop_lem zero n i m s str h t p = absurd (omega arith)
puts_loop_lem (suc fuel) zero i m s str h t p =
    let e : (byte_at str i == 0) ≡ true = eq→== _ _ (ap (byte_at str) (omega arith) ∙ h.ends) in
    rw e (ap (λ k. some (k, s)) (omega arith))
puts_loop_lem (suc fuel) (suc n) i m s str h t p =
    let e : (byte_at str i == 0) ≡ false = ne→== _ _ (h.before i (omega arith)) in
    rw e (puts_loop_lem fuel n (i + 1) m _ str h (omega arith) (omega arith))

-- puts of a string that ends prints its characters in order, once each, and returns their number.
pub puts_lem :
    (s : Screen) (str : Bytes) (n : ℕ)
    → HasLength str n
    → n < 2 ^ 32
    → puts s str ≡ some (n, put_all n 0 str s)
unfolding puts address_space
puts_lem s str n h p = puts_loop_lem (2 ^ 32) n 0 n s str h (omega arith) p

printf_loop_lem :
    (fuel n m : ℕ) (args : Arguments) (junk format : Bytes) (p : Printing)
    → HasLength format m
    → ((j : ℕ) → j < m → byte_at format j ≢ b'%')
    → m ≡ p.buf + n
    → n < fuel
    → printf_loop fuel args junk format p ≡ some (m, put_all n p.buf format p.screen)
unfolding printf_loop put_all printf_round
printf_loop_lem zero n m args junk format p h plain t q = absurd (omega arith)
printf_loop_lem (suc fuel) zero m args junk format p h plain t q =
    let e : (byte_at format p.buf == 0) ≡ true =
      eq→== _ _ (ap (byte_at format) (omega arith) ∙ h.ends) in
    rw e (ap (λ k. some (k, p.screen)) (omega arith))
printf_loop_lem (suc fuel) (suc n) m args junk format p h plain t q =
    let e : (byte_at format p.buf == 0) ≡ false = ne→== _ _ (h.before p.buf (omega arith)) in
    let c : (byte_at format p.buf == b'%') ≡ false = ne→== _ _ (plain p.buf (omega arith)) in
    rw (e, c) (printf_loop_lem fuel n m args junk format _ h plain (omega arith) (omega arith))

-- printf of a format without `%` is puts of it, whatever the further arguments are.
pub printf-puts :
    (s : Screen) (format : Bytes) (n : ℕ) (args : Arguments) (junk : Bytes)
    → HasLength format n
    → n < 2 ^ 32
    → ((j : ℕ) → j < n → byte_at format j ≢ b'%')
    → printf s format args junk ≡ puts s format
unfolding printf address_space
printf-puts s format n args junk h p plain =
    printf_loop_lem (2 ^ 32) n n args junk format (record { screen = s; buf = 0; esp = 0 }) h plain
      (omega arith) p
    ∙ sym (puts_lem s format n h p)
