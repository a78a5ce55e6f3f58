-- ===== src/Em/Overrun.antt =====
-- e1000_mng_host_if_write_generic with fewer bytes than its first, unaligned dword takes.
use rtems_libbsdport.Prelude.{
  ℕ, suc, ◌+◌, ◌-◌, ◌*◌, ◌/◌, ◌%◌, ◌^◌, ◌<◌, ◌≤◌, ◌≡◌, refl, false, arith, ltb, ◌==◌, ◌∷◌,
}
use rtems_libbsdport.Em.{Reg, Op, Log, Board, done}
use rtems_libbsdport.Em.Host.{head_loop, write_whole, mng_host_if_write}
use rtems_libbsdport.Em.Ram.{ram_byte, write_whole-IsWritten}

-- At an offset inside of a dword, a write of fewer bytes than are left of that dword goes on through
-- 65532 bytes behind the dword, far beyond the host interface, with what stands in memory behind
-- the buffer: `length -= j - prev_bytes` wraps below 0.
pub short_write_overruns :
    (b : Board) (buffer : ℕ → ℕ) (length offset sum : ℕ) (log : Log)
    → ((k : ℕ) → buffer k < 256)
    → 0 < length
    → 0 < offset % 4
    → length + offset % 4 < 4
    → offset + length ≤ 0x6F8
    → (sum' : ℕ) × (log' : Log) × (mng_host_if_write b buffer length offset sum log
        ≡ done sum' log')
      × ((k : ℕ)
          → k < 65532
          → ram_byte log' (4 * suc (offset / 4) + k) ≡ buffer (4 - offset % 4 + k))
unfolding mng_host_if_write
short_write_overruns b buffer length offset sum log bytes p q r l =
    let i = offset / 4 in
    let (d, sum₁) = head_loop buffer (4 - offset % 4) (offset % 4) 0 (b log (Reg.host_if i)) sum in
    let log₁ : Log = Op.wrote (Reg.host_if i) d ∷ Op.did_read (Reg.host_if i) ∷ log in
    let length₁ = (length + 2 ^ 16 - (4 - offset % 4)) % 2 ^ 16 in
    let e : (length == 0) ≡ false = ground arith in
    let f : ltb 0x6F8 (offset + length) ≡ false = ground arith in
    let g : (offset % 4 == 0) ≡ false = ground arith in
    let (sum₂, log₂) = write_whole buffer length₁ (suc i) (4 - offset % 4) sum₁ log₁ in
    let w = write_whole-IsWritten buffer bytes length₁ (suc i) (4 - offset % 4) sum₁ log₁ in
    (sum₂, log₂, rw (e, f, g) refl, λ k h. w.inside k (omega arith))
