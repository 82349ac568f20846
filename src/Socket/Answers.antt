-- ===== src/Socket/Answers.antt =====
-- socket.cc: what `write` returns.
use m_server.Prelude.{
  ℕ, ◌-◌, ◌%◌, ◌^◌, ◌<◌, ◌≡◌, ◌↔◌, inl, inr, refl, sym, ◌∙◌, ap, ltb, Bool, true, false, Bool-cases,
  arith,
}
use m_server.Prelude.Int.{ℤ, pos, negsuc}
use m_server.Socket.{value, write}

as_nat : ℤ → ℕ
as_nat (pos n) = n
as_nat (negsuc n) = 0

is_pos : ℤ → Bool
is_pos (pos n) = true
is_pos (negsuc n) = false

-- Of a count of bytes that `write` gave, `socket::write` returns that count exactly when it is below
-- 2^31.
pub write_exact : (n : ℕ) → (write (value n) ≡ pos n) ↔ (n < 2 ^ 31)
unfolding write as_nat is_pos
write_exact n = elim (Bool-cases (ltb (n % 2 ^ 32) (2 ^ 31))) [
  | inl e ↦
      let eq : write (value n) ≡ pos (n % 2 ^ 32) = rw e refl in
      (
        λ f. let g : n % 2 ^ 32 ≡ n = ap as_nat (sym eq ∙ f) in ground arith,
        λ lt. let g : n % 2 ^ 32 ≡ n = omega arith in eq ∙ ap pos g,
      )
  | inr e ↦
      let eq : write (value n) ≡ negsuc (2 ^ 32 - n % 2 ^ 32 - 1) = rw e refl in
      (
        λ f. let g : false ≡ true = ap is_pos (sym eq ∙ f) in absurd (ground arith),
        λ lt. absurd (ground arith),
      )
]
