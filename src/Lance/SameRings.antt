-- ===== src/Lance/SameRings.antt =====
-- am79900_meminit and am79900_tint of am79900.c beside those of am7990.c.
use rtems_libbsdport.Prelude.{
  ℕ, zero, suc, ◌+◌, ◌%◌, ◌/◌, ◌^◌, ◌≡◌, refl, sym, ap, ◌∙◌, ◌==◌, ◌&&◌, ◌||◌, arith, Bool-cases,
  inl, inr,
}
use mathlib.Core.Path.{fun_ext}
use rtems_libbsdport.Prelude.Memory.{update}
use rtems_libbsdport.Lance.{Softc, Host, Init, Tmd, next, le_rbufaddr, le_tbufaddr}
use rtems_libbsdport.Lance.Rings.{
  init_block, fresh_rmd, fresh_tmd, rmd_loop, tmd_loop, am7990_meminit,
}
use rtems_libbsdport.Lance.Receive.{Tint, settle, count_error, count_sent, tint_loop}
use rtems_libbsdport.Lance.Wide.{Wide, read_rmd, read_tmd}
use rtems_libbsdport.Lance.Whole.{
  WideTint, wide_init_block, wide_fresh_rmd, wide_fresh_tmd, wide_rmd_loop, wide_tmd_loop,
  am79900_meminit, wide_tint_loop,
}
use rtems_libbsdport.Lance.Same.{seen}

fresh_rmd-seen : (w : Wide) (bix : ℕ) → read_rmd (wide_fresh_rmd w.sc bix) ≡ fresh_rmd (seen w) bix
unfolding wide_fresh_rmd fresh_rmd seen
fresh_rmd-seen w bix =
    let a = w.sc.sc_addr + le_rbufaddr w.sc bix in
    let e : a % 2 ^ 32 % 2 ^ 16 ≡ a % 2 ^ 16 = omega arith in
    let f : a % 2 ^ 32 / 2 ^ 16 % 2 ^ 8 ≡ a / 2 ^ 16 % 2 ^ 8 = omega arith in rw (e, f) refl

fresh_tmd-seen : (w : Wide) (bix : ℕ) → read_tmd (wide_fresh_tmd w.sc bix) ≡ fresh_tmd (seen w) bix
unfolding wide_fresh_tmd fresh_tmd seen
fresh_tmd-seen w bix =
    let a = w.sc.sc_addr + le_tbufaddr w.sc bix in
    let e : a % 2 ^ 32 % 2 ^ 16 ≡ a % 2 ^ 16 = omega arith in
    let f : a % 2 ^ 32 / 2 ^ 16 % 2 ^ 8 ≡ a / 2 ^ 16 % 2 ^ 8 = omega arith in rw (e, f) refl

pub update-map {ℓ ℓ'} :
    {A : Type ℓ} {B : Type ℓ'} (f : A → B) (g : ℕ → A) (k : ℕ) (x : A) (y : B)
    → f x ≡ y
    → ◌≡◌ {A = ℕ → B} (λ i. f (update g k x i)) (update (λ i. f (g i)) k y)
update-map f g k x y p =
    fun_ext (λ i. elim (Bool-cases (i == k)) [ inl e ↦ rw e p | inr e ↦ rw e refl ])

rmd_loop-seen : (w : Wide) (n bix : ℕ) → seen (wide_rmd_loop w n bix) ≡ rmd_loop (seen w) n bix
unfolding seen wide_rmd_loop rmd_loop
rmd_loop-seen w zero bix = refl
rmd_loop-seen w (suc n) bix =
    let d = wide_fresh_rmd w.sc bix in
    rmd_loop-seen (record w { wide_rmd = update w.wide_rmd bix d }) n (suc bix)
    ∙ ap (λ r. rmd_loop (record (seen w) { rmd = r }) n (suc bix))
        (update-map read_rmd w.wide_rmd bix d (fresh_rmd (seen w) bix) (fresh_rmd-seen w bix))

tmd_loop-seen : (w : Wide) (n bix : ℕ) → seen (wide_tmd_loop w n bix) ≡ tmd_loop (seen w) n bix
unfolding seen wide_tmd_loop tmd_loop
tmd_loop-seen w zero bix = refl
tmd_loop-seen w (suc n) bix =
    let d = wide_fresh_tmd w.sc bix in
    tmd_loop-seen (record w { wide_tmd = update w.wide_tmd bix d }) n (suc bix)
    ∙ ap (λ r. tmd_loop (record (seen w) { tmd = r }) n (suc bix))
        (update-map read_tmd w.wide_tmd bix d (fresh_tmd (seen w) bix) (fresh_tmd-seen w bix))

with_init : Softc → Init → Softc
with_init sc b = record sc { init = b }

rmd_loop-init :
    (sc : Softc) (b : Init) (n bix : ℕ)
    → with_init (rmd_loop sc n bix) b ≡ rmd_loop (with_init sc b) n bix
unfolding rmd_loop with_init fresh_rmd
rmd_loop-init sc b zero bix = refl
rmd_loop-init sc b (suc n) bix =
    rmd_loop-init (record sc { rmd = update sc.rmd bix (fresh_rmd sc bix) }) b n (suc bix)

tmd_loop-init :
    (sc : Softc) (b : Init) (n bix : ℕ)
    → with_init (tmd_loop sc n bix) b ≡ tmd_loop (with_init sc b) n bix
unfolding tmd_loop with_init fresh_tmd
tmd_loop-init sc b zero bix = refl
tmd_loop-init sc b (suc n) bix =
    tmd_loop-init (record sc { tmd = update sc.tmd bix (fresh_tmd sc bix) }) b n (suc bix)

pub meminit-seen :
    (h : Host) (w : Wide)
    → seen (am79900_meminit h w) ≡ record (am7990_meminit h (seen w)) { init = w.sc.init }
unfolding am79900_meminit am7990_meminit seen with_init
meminit-seen h w =
    let nr = w.sc.sc_nrbuf in
    let nt = w.sc.sc_ntbuf in
    let reset = record w.sc { sc_last_rd = 0; sc_first_td = 0; sc_last_td = 0; sc_no_td = 0 } in
    let w₁ = record w { sc = reset; wide_init = wide_init_block h w.sc } in
    let sc₁ = with_init (seen w₁) (init_block h (seen w)) in
    tmd_loop-seen (wide_rmd_loop w₁ nr 0) nt 0
    ∙ ap (λ sc. tmd_loop sc nt 0) (rmd_loop-seen w₁ nr 0)
    ∙ ap (λ sc. tmd_loop sc nt 0) (sym (rmd_loop-init sc₁ w.sc.init nr 0))
    ∙ sym (tmd_loop-init (rmd_loop sc₁ nr 0) w.sc.init nt 0)

settle-seen :
    (w : Wide) (tmd : Tmd) (n : ℕ)
    → seen (record w { sc = settle w.sc tmd n }) ≡ settle (seen w) tmd n
unfolding seen settle count_error count_sent
settle-seen w tmd n = elim (Bool-cases tmd.err) [
  | inl e ↦ elim (Bool-cases (tmd.lcar && w.sc.le_carrier)) [
    | inl f ↦ rw (e, f) refl
    | inr f ↦ rw (e, f) refl
  ]
  | inr e ↦ rw e refl
]

-- How the loop ends, as the other chip would have it.
unfoldable pub seen_tint : WideTint → Tint
unfolding seen
seen_tint (WideTint.stops w bix) = Tint.stops (seen w) bix
seen_tint (WideTint.fails w) = Tint.fails (seen w)

pub tint_loop-seen :
    (w : Wide) (n bix : ℕ) → seen_tint (wide_tint_loop w n bix) ≡ tint_loop (seen w) n bix
unfolding seen_tint seen wide_tint_loop tint_loop
tint_loop-seen w zero bix = refl
tint_loop-seen w (suc n) bix =
    let d = read_tmd (w.wide_tmd bix) in
    elim (Bool-cases d.own) [
      | inl e ↦ rw e refl
      | inr e ↦ elim (Bool-cases (d.err && (d.buff || d.uflo))) [
        | inl f ↦ rw (e, f) refl
        | inr f ↦
            rw (e, f)
              (tint_loop-seen (record w { sc = settle w.sc d n }) n (next bix w.sc.sc_ntbuf)
                ∙ ap (λ sc. tint_loop sc n (next bix w.sc.sc_ntbuf)) (settle-seen w d n))
      ]
    ]
