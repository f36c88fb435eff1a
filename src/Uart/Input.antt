-- ===== src/Uart/Input.antt =====
-- The busy-waiting input of src/uart.c. What the line will deliver is a list of bytes; where a
-- call waits for more than that, its result is `none`.
use nycu_osc.Prelude.{
  ℕ, zero, suc, ◌+◌, ◌≡◌, refl, Option, none, some, List, [], ◌∷◌, ◌++◌, ◌==◌, if◌then◌else◌, arith,
  length, Bool-cases, inl, inr,
}
use nycu_osc.Prelude.Store.{update, ◌∉◌}
use nycu_osc.CString.{Text}
use nycu_osc.CString.Memory.{Mem}

-- `uart_getc`: the byte, and what is left on the line
unfoldable pub getc : List ℕ → Option (ℕ × List ℕ)
getc [] = none
getc (c ∷ line) = some (c, line)

-- the loop of `uart_gets` from the place `p` on: the place of the end, the buffer, the echo and the line
unfoldable pub gets_loop : List ℕ → ℕ → Mem → Option (ℕ × Mem × List ℕ × List ℕ)
gets_loop [] p buffer = none
gets_loop (c ∷ line) p buffer =
    let rest = gets_loop line (p + 1) (update buffer p c) in
    if c == b'\r'
    then some (p, buffer, [], line)
    else elim rest [ none ↦ none | some (e, m, echo, left) ↦ some (e, m, c ∷ echo, left) ]

-- `uart_gets`: the buffer, the echo and the line
unfoldable pub gets : List ℕ → Mem → Option (Mem × List ℕ × List ℕ)
unfolding gets_loop
gets line buffer = elim (gets_loop line 0 buffer) [
  | none ↦ none
  | some (e, m, echo, left) ↦ some (update m e 0, echo ++ (b'\r' ∷ b'\n' ∷ []), left)
]

-- the loop of `uart_getn`
unfoldable pub getn_loop : ℕ → List ℕ → ℕ → Mem → Option (Mem × List ℕ)
unfolding getc
getn_loop zero line p buffer = some (buffer, line)
getn_loop (suc n) line p buffer = elim (getc line) [
  | none ↦ none
  | some (c, left) ↦ getn_loop n left (p + 1) (update buffer p c)
]

-- `uart_getn`, which returns `n`: the buffer with a NUL behind the `n` bytes, and the line
unfoldable pub getn : ℕ → List ℕ → Mem → Option (Mem × List ℕ)
unfolding getn_loop
getn n line buffer = elim (getn_loop n line 0 buffer) [
  | none ↦ none
  | some (m, left) ↦ some (update m n 0, left)
]

-- the buffer with the bytes of a text from `p` on
abbrev pub put_text : Text → ℕ → Mem → Mem
put_text [] p m = m
put_text (c ∷ cs) p m = put_text cs (p + 1) (update m p c)

gets_loop_lem :
    (t rest : List ℕ) (p : ℕ) (m : Mem)
    → b'\r' ∉ t
    → gets_loop (t ++ (b'\r' ∷ rest)) p m ≡ some (p + length t, put_text t p m, t, rest)
unfolding gets_loop
gets_loop_lem [] rest p m h = let e : p + 0 ≡ p = omega arith in rw e refl
gets_loop_lem (c ∷ t) rest p m h = elim (Bool-cases (c == b'\r')) [
  | inl cr ↦ absurd (ground (arith, cr, h))
  | inr other ↦
      let k : b'\r' ∉ t = ground (arith, other, h) in
      let e : p + 1 + length t ≡ p + suc (length t) = omega arith in
      rw (other, gets_loop_lem t rest (p + 1) (update m p c) k, e) refl
]

-- Where the line delivers a text that has no carriage return, and then a carriage return,
-- `uart_gets` returns the text with a NUL behind it, echoes the text and a line end, and leaves the
-- rest of the line.
pub gets_lem :
    (t rest : List ℕ) (m : Mem)
    → b'\r' ∉ t
    → gets (t ++ (b'\r' ∷ rest)) m
      ≡ some (update (put_text t 0 m) (length t) 0, t ++ (b'\r' ∷ b'\n' ∷ []), rest)
unfolding gets
gets_lem t rest m h =
    let z : 0 + length t ≡ length t = omega arith in rw (gets_loop_lem t rest 0 m h, gets, z) refl

getn_loop_lem :
    (t rest : List ℕ) (p : ℕ) (m : Mem)
    → getn_loop (length t) (t ++ rest) p m ≡ some (put_text t p m, rest)
unfolding getn_loop getc
getn_loop_lem [] rest p m = refl
getn_loop_lem (c ∷ t) rest p m = getn_loop_lem t rest (p + 1) (update m p c)

-- `uart_getn` takes as many bytes from the line as it is asked for, and writes one byte more: the
-- NUL behind them.
pub getn_lem :
    (t rest : List ℕ) (m : Mem)
    → getn (length t) (t ++ rest) m ≡ some (update (put_text t 0 m) (length t) 0, rest)
unfolding getn
getn_lem t rest m = rw (getn_loop_lem t rest 0 m, getn) refl
