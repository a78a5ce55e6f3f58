-- ===== src/Em/Filter.antt =====
-- e1000_mac.c: the receive addresses, and the hash table of multicast addresses.
use rtems_libbsdport.Prelude.{
  ℕ, zero, suc, ◌+◌, ◌-◌, ◌*◌, ◌/◌, ◌%◌, ◌^◌, Bool, ◌==◌, if◌then◌else◌, Option, none, some, List,
  [], ◌∷◌,
}
use rtems_libbsdport.Prelude.Words.{set_bit}
use rtems_libbsdport.Em.{Reg, Op, Log, Board, flush}

-- An address: its six bytes.
abbrev pub Addr : Type 0
Addr = ℕ → ℕ

-- The fields of `struct e1000_mac_info` that these functions use.
pub record Mac : Type 0 where
  pub addr : Addr
  pub mta_reg_count : ℕ
  pub mc_filter_type : ℕ
  pub disable_av : Bool

-- `rar_low` and `rar_high` of e1000_rar_set_generic; E1000_RAH_AV is bit 31.
abbrev pub rar_low : Addr → ℕ
rar_low a = a 0 + a 1 * 2 ^ 8 + a 2 * 2 ^ 16 + a 3 * 2 ^ 24

abbrev pub rar_high : Mac → Addr → ℕ
rar_high mac a = a 4 + a 5 * 2 ^ 8 + (if mac.disable_av then 0 else 2 ^ 31)

-- e1000_rar_set_generic
unfoldable pub rar_set : Mac → Addr → (index : ℕ) → Log → Log
rar_set mac a index log =
    Op.wrote (Reg.ra (index * 2 + 1)) (rar_high mac a)
    ∷ Op.wrote (Reg.ra (index * 2)) (rar_low a)
    ∷ log

-- Both registers of the pair `index` set to 0.
unfoldable pub rar_clear : (index : ℕ) → Log → Log
rar_clear index log =
    flush (Op.wrote (Reg.ra (index * 2 + 1)) 0 ∷ flush (Op.wrote (Reg.ra (index * 2)) 0 ∷ log))

-- `n` rounds from `i` on of the loop of e1000_init_rx_addrs_generic.
unfoldable pub clear_rars : (n i : ℕ) → Log → Log
unfolding rar_clear
clear_rars zero i log = log
clear_rars (suc n) i log = clear_rars n (suc i) (rar_clear i log)

-- e1000_init_rx_addrs_generic
unfoldable pub init_rx_addrs : Mac → (rar_count : ℕ) → Log → Log
unfolding rar_set clear_rars
init_rx_addrs mac rar_count log = clear_rars (rar_count - 1) 1 (rar_set mac mac.addr 0 log)

-- `while (hash_mask >> bit_shift != 0xFF) bit_shift++`. none: the fuel ran out; the shift of the
-- source is undefined from 32 on.
unfoldable pub shift_loop : (fuel hash_mask bit_shift : ℕ) → Option ℕ
shift_loop zero hash_mask bit_shift = none
shift_loop (suc fuel) hash_mask bit_shift =
    let rest = shift_loop fuel hash_mask (suc bit_shift) in
    if hash_mask / 2 ^ bit_shift == 0xFF then some bit_shift else rest

-- What `mc_filter_type` adds to the shift.
abbrev pub type_shift : Mac → ℕ
type_shift mac =
    if mac.mc_filter_type == 1
    then 1
    else if mac.mc_filter_type == 2
    then 2
    else if mac.mc_filter_type == 3
    then 4
    else 0

-- e1000_hash_mc_addr_generic; the mask is one less than a power of two on every chip.
unfoldable pub hash_mc_addr : Mac → Addr → Option ℕ
unfolding shift_loop
hash_mc_addr mac a = elim (shift_loop 32 (mac.mta_reg_count * 32 - 1) 0) [
  | none ↦ none
  | some s ↦
      let bit_shift = s + type_shift mac in
      some ((a 4 / 2 ^ (8 - bit_shift) + a 5 * 2 ^ bit_shift) % (mac.mta_reg_count * 32))
]

-- e1000_mta_set_generic; `& (mta_reg_count - 1)` for a count that is a power of two.
unfoldable pub mta_set : Board → Mac → (hash_value : ℕ) → Log → Log
mta_set b mac hash_value log =
    let hash_reg = hash_value / 32 % mac.mta_reg_count in
    flush (
      Op.wrote (Reg.mta hash_reg) (set_bit (b log (Reg.mta hash_reg)) (hash_value % 32))
      ∷ Op.did_read (Reg.mta hash_reg)
      ∷ log)

-- The first loop of e1000_mc_addr_list_update_generic, `n` rounds from `i` on: the addresses that
-- it leaves, and the log.
unfoldable pub rar_loop : Mac → (n i : ℕ) → List Addr → Log → List Addr × Log
unfolding rar_set rar_clear
rar_loop mac zero i as' log = (as', log)
rar_loop mac (suc n) i [] log = rar_loop mac n (suc i) [] (rar_clear i log)
rar_loop mac (suc n) i (a ∷ as') log = rar_loop mac n (suc i) as' (rar_set mac a i log)

-- The loop that clears the table, `n` rounds from `i` on.
unfoldable pub clear_mta : (n i : ℕ) → Log → Log
clear_mta zero i log = log
clear_mta (suc n) i log = clear_mta n (suc i) (flush (Op.wrote (Reg.mta i) 0 ∷ log))

-- The loop over the addresses that are left.
unfoldable pub load_mta : Board → Mac → List Addr → Log → Option Log
unfolding hash_mc_addr mta_set
load_mta b mac [] log = some log
load_mta b mac (a ∷ as') log = elim (hash_mc_addr mac a) [
  | none ↦ none
  | some hash_value ↦ load_mta b mac as' (mta_set b mac hash_value log)
]

-- e1000_mc_addr_list_update_generic
unfoldable pub mc_addr_list_update :
    Board → Mac → List Addr → (rar_used_count rar_count : ℕ) → Log → Option Log
unfolding rar_loop clear_mta load_mta
mc_addr_list_update b mac mc_addr_list rar_used_count rar_count log =
    let (rest, log₁) = rar_loop mac (rar_count - rar_used_count) rar_used_count mc_addr_list log in
    load_mta b mac rest (clear_mta mac.mta_reg_count 0 log₁)
