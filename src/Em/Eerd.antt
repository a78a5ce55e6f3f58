-- ===== src/Em/Eerd.antt =====
-- e1000_nvm.c: reading words of the EEPROM through the register EERD.
use rtems_libbsdport.Prelude.{
  ℕ, zero, suc, ◌+◌, ◌-◌, ◌*◌, ◌/◌, ◌^◌, ◌<◌, ◌≤◌, ◌≡◌, refl, ap, ◌⊎◌, true, Bool, ◌||◌, arith, ltb,
  leb, ◌==◌, if◌then◌else◌, Bool-cases, inl, inr, List, [], ◌∷◌,
}
use rtems_libbsdport.Prelude.Words.{is_set}
use rtems_libbsdport.Em.{Reg, Op, Log, Board, M, done, failed, err_nvm}

-- The checks of the parameters that every read and write begins with.
unfoldable pub is_out_of_bounds : (word_size offset words : ℕ) → Bool
is_out_of_bounds word_size offset words =
    leb word_size offset || (ltb (word_size - offset) words || (words == 0))

-- The polls of e1000_poll_eerd_eewr_done, `attempts` at most, of EERD or EEWR.
unfoldable pub poll_done : Board → Reg → (attempts : ℕ) → M (Unit {0})
poll_done b reg zero log = failed err_nvm log
poll_done b reg (suc attempts) log =
    let rest = poll_done b reg attempts (Op.did_read reg ∷ log) in
    if is_set (b log reg) 1 then done tt (Op.did_read reg ∷ log) else rest

-- One word: the command to EERD, the wait for it, and the read of its upper half.
unfoldable pub read_word : Board → (attempts : ℕ) → (offset : ℕ) → M ℕ
unfolding poll_done
read_word b attempts offset log =
    elim (poll_done b Reg.eerd attempts (Op.wrote Reg.eerd (offset * 4 + 1) ∷ log)) [
      | done u log₁ ↦ done (b log₁ Reg.eerd / 2 ^ 16) (Op.did_read Reg.eerd ∷ log₁)
      | failed error log₁ ↦ failed error log₁
    ]

unfoldable pub read_words : Board → (attempts : ℕ) → (words offset : ℕ) → M (List ℕ)
read_words b attempts zero offset log = done [] log
read_words b attempts (suc words) offset log = elim (read_word b attempts offset log) [
  | done w log₁ ↦ elim (read_words b attempts words (suc offset) log₁) [
    | done ws log₂ ↦ done (w ∷ ws) log₂
    | failed error log₂ ↦ failed error log₂
  ]
  | failed error log₁ ↦ failed error log₁
]

abbrev pub poll_attempts : ℕ
poll_attempts = 100000

-- e1000_read_nvm_eerd with `attempts` for the attempts of the poll: `data[0..words)`.
unfoldable pub read_nvm_within : Board → (attempts word_size offset words : ℕ) → M (List ℕ)
read_nvm_within b attempts word_size offset words log =
    if is_out_of_bounds word_size offset words
    then failed err_nvm log
    else read_words b attempts words offset log

unfoldable pub read_nvm_eerd : Board → (word_size offset words : ℕ) → M (List ℕ)
unfolding read_nvm_within
read_nvm_eerd b word_size offset words log =
    read_nvm_within b poll_attempts word_size offset words log

-- `n` reads of EERD.
abbrev pub reads : (n : ℕ) → Log → Log
reads zero log = log
reads (suc n) log = Op.did_read Reg.eerd ∷ reads n log

-- EERD as documented: a while after the command, `wait` reads at most, it shows DONE and the word.
pub record IsEerd (b : Board) (content : ℕ → ℕ) (wait : ℕ) : Type 0 where
  pub is_done :
      (log : Log) (a n : ℕ)
      → wait ≤ n
      → is_set (b (reads n (Op.wrote Reg.eerd (a * 4 + 1) ∷ log)) Reg.eerd) 1 ≡ true
  pub word :
      (log : Log) (a n : ℕ)
      → is_set (b (reads n (Op.wrote Reg.eerd (a * 4 + 1) ∷ log)) Reg.eerd) 1 ≡ true
      → b (Op.did_read Reg.eerd ∷ reads n (Op.wrote Reg.eerd (a * 4 + 1) ∷ log)) Reg.eerd / 2 ^ 16
        ≡ content a

-- The words `content[a..a + n)`.
abbrev pub words_from : (content : ℕ → ℕ) → (n a : ℕ) → List ℕ
words_from content zero a = []
words_from content (suc n) a = content a ∷ words_from content n (suc a)

module _ (b : Board) (content : ℕ → ℕ) (wait attempts : ℕ) (eerd : IsEerd b content wait)
    (enough : wait < attempts) where
  poll_done-done :
      (k n : ℕ) (log : Log) (a : ℕ)
      → n + k ≡ attempts
      → n ≤ wait
      → (m : ℕ) × (poll_done b Reg.eerd k (reads n (Op.wrote Reg.eerd (a * 4 + 1) ∷ log))
          ≡ done tt (Op.did_read Reg.eerd ∷ reads m (Op.wrote Reg.eerd (a * 4 + 1) ∷ log)))
        × (is_set (b (reads m (Op.wrote Reg.eerd (a * 4 + 1) ∷ log)) Reg.eerd) 1 ≡ true)
  unfolding poll_done
  poll_done-done zero n log a e l = absurd (omega arith)
  poll_done-done (suc k) n log a e l =
      let start = Op.wrote Reg.eerd (a * 4 + 1) ∷ log in
      elim (Bool-cases (is_set (b (reads n start) Reg.eerd) 1)) [
        | inl d ↦ (n, rw d refl, d)
        | inr d ↦ elim (Bool-cases (n == wait)) [
          | inl q ↦ absurd (ground (arith, eerd.is_done log a n))
          | inr q ↦
              let (m, f, g) = poll_done-done k (suc n) log a (omega arith) (ground arith) in
              (m, rw d f, g)
        ]
      ]

  read_word-done :
      (log : Log) (a : ℕ) → (log' : Log) × (read_word b attempts a log ≡ done (content a) log')
  unfolding read_word
  read_word-done log a =
      let (m, f, g) = poll_done-done attempts 0 log a (omega arith) (omega arith) in
      let log₁ : Log = Op.did_read Reg.eerd ∷ reads m (Op.wrote Reg.eerd (a * 4 + 1) ∷ log) in
      (
        Op.did_read Reg.eerd ∷ log₁,
        rw (f, read_word) (ap (λ w. done w (Op.did_read Reg.eerd ∷ log₁)) (eerd.word log a m g)),
      )

  read_words-done :
      (n a : ℕ) (log : Log)
      → (log' : Log) × (read_words b attempts n a log ≡ done (words_from content n a) log')
  unfolding read_words
  read_words-done zero a log = (log, refl)
  read_words-done (suc n) a log =
      let (log₁, f) = read_word-done log a in
      let (log₂, g) = read_words-done n (suc a) log₁ in (log₂, rw (f, g, read_words) refl)

  -- e1000_read_nvm_eerd gives the words of the EEPROM, in order, where the range lies in it, and
  -- otherwise an error without touching a register; the wait for each word ends in time.
  pub read_nvm_within-words :
      (word_size offset words : ℕ) (log : Log)
      → ((offset + words ≤ word_size)
          × (0 < words)
          × ((log' : Log) × (read_nvm_within b attempts word_size offset words log
                ≡ done (words_from content words offset) log')))
        ⊎ (((word_size < offset + words) ⊎ (words ≡ 0))
            × (read_nvm_within b attempts word_size offset words log ≡ failed err_nvm log))
  unfolding read_nvm_within is_out_of_bounds
  read_nvm_within-words word_size offset words log =
      elim (Bool-cases (is_out_of_bounds word_size offset words)) [
        | inl e ↦ inr (ground arith, rw e refl)
        | inr e ↦
            let (log', f) = read_words-done words offset log in
            inl (ground arith, ground arith, (log', rw e f))
      ]
