-- ===== src/Em/Chip.antt =====
-- A chip that reads its EEPROM through EERD (e1000_82571.c and others set `read_nvm` so), and the
-- checksum of e1000_nvm.c over it.
use rtems_libbsdport.Prelude.{ℕ, ◌%◌, ◌^◌, ◌<◌, ◌≤◌, ◌≡◌, refl, inl, inr, ◌↔◌, List, [], ◌∷◌, arith}
use rtems_libbsdport.Em.{Log, Board, M, done, failed}
use rtems_libbsdport.Em.Eerd.{IsEerd, read_nvm_within, read_nvm_within-words}
use rtems_libbsdport.Em.Store.{
  Nvm, IsReadable, sum_from, nvm_sum, validate_nvm_checksum, validate_iff,
}

-- `nvm_data` behind a read of one word.
abbrev first : List ℕ → ℕ
first [] = 0
first (w ∷ ws) = w

-- The functions of the chip: EERD, and some write.
abbrev pub eerd_nvm : Board → (attempts word_size : ℕ) → ((offset word : ℕ) → M (Unit {0})) → Nvm
eerd_nvm b attempts word_size write = record {
  read_nvm = λ offset log. elim (read_nvm_within b attempts word_size offset 1 log) [
    | done ws log' ↦ done (first ws) log'
    | failed error log' ↦ failed error log'
  ];
  write_nvm = write;
}

module _ (b : Board) (content : ℕ → ℕ) (wait attempts word_size : ℕ)
    (write : (offset word : ℕ) → M (Unit {0})) (eerd : IsEerd b content wait)
    (enough : wait < attempts) (large : 64 ≤ word_size) (words : (i : ℕ) → content i < 2 ^ 16) where
  eerd-IsReadable : IsReadable (eerd_nvm b attempts word_size write) (λ log. content)
  eerd-IsReadable = record {
    word = λ log i. words i;
    reads = λ log i l.
        elim (read_nvm_within-words b content wait attempts eerd enough word_size i 1 log) [
          | inl (fits, some_words, (log', e)) ↦ (log', rw (e, eerd_nvm) refl, λ j. refl)
          | inr (over, e) ↦ absurd (ground arith)
        ];
  }

  -- On a chip whose EERD answers in time, e1000_validate_nvm_checksum_generic succeeds exactly if the
  -- words of the EEPROM up to that of the checksum add up to NVM_SUM in 16 bits.
  pub eerd_validates :
      (log : Log)
      → ((log' : Log) × (validate_nvm_checksum (eerd_nvm b attempts word_size write) log
            ≡ done tt log'))
        ↔ (sum_from content 64 0 % 2 ^ 16 ≡ nvm_sum)
  eerd_validates log =
      validate_iff (eerd_nvm b attempts word_size write) (λ log. content) eerd-IsReadable log
