-- ===== src/Lance/SameReceive.antt =====
-- The receive loop of am79900.c beside that of am7990.c.
use rtems_libbsdport.Prelude.{
  ℕ, zero, suc, ◌≡◌, refl, ap, ◌∙◌, false, Bool-cases, inl, inr, Option, none, some,
}
use rtems_libbsdport.Prelude.Words.{is_set}
use rtems_libbsdport.Lance.{Softc, Host, Chain, next}
use rtems_libbsdport.Lance.Receive.{given_back, take_packet, pass_up, rint_loop, tint_loop}
use rtems_libbsdport.Lance.Wide.{Wide, WideRmd, read_rmd}
use rtems_libbsdport.Lance.WideReceive.{
  wide_given_back, wide_take_packet, wide_pass_up, wide_rint_loop,
}
use rtems_libbsdport.Lance.Same.{seen}
use rtems_libbsdport.Lance.SameRings.{update-map, seen_tint, meminit-seen, tint_loop-seen}
use rtems_libbsdport.Lance.Rings.{am7990_meminit}
use rtems_libbsdport.Lance.Whole.{am79900_meminit, wide_tint_loop}

given_back-seen : (d : WideRmd) → read_rmd (wide_given_back d) ≡ given_back (read_rmd d)
unfolding wide_given_back given_back
given_back-seen d = refl

take_packet-seen :
    (h : Host) (w : Wide) (bix : ℕ)
    → ◌≡◌ {A = Option Chain × Softc}
        ((wide_take_packet h w bix).0, seen (wide_take_packet h w bix).1)
        (take_packet h (seen w) bix)
unfolding seen wide_take_packet take_packet
take_packet-seen h w bix =
    ap (λ r. ((wide_take_packet h w bix).0, record (seen (wide_take_packet h w bix).1) { rmd = r }))
      (update-map read_rmd w.wide_rmd bix (wide_given_back (w.wide_rmd bix))
        (given_back (read_rmd (w.wide_rmd bix))) (given_back-seen (w.wide_rmd bix)))

-- What the loop leaves, as the other chip would have it.
abbrev pub seen_rint : Option (Wide × ℕ) → Option (Softc × ℕ)
seen_rint none = none
seen_rint (some (w, bix)) = some (seen w, bix)

module _ (h : Host) (unlocked : Wide → Wide)
    (same : (w : Wide) → seen (unlocked w) ≡ h.unlocked (seen w)) where
  pass_up-seen :
      (m : Option Chain) (w : Wide)
      → seen (wide_pass_up unlocked false (m, w)) ≡ pass_up h (m, seen w)
  unfolding seen wide_pass_up pass_up
  pass_up-seen none w = refl
  pass_up-seen (some m) w = same _

  rint_loop-seen :
      (fuel bix : ℕ) (w : Wide)
      → seen_rint (wide_rint_loop h unlocked false fuel bix w) ≡ rint_loop h fuel bix (seen w)
  unfolding wide_rint_loop rint_loop seen
  rint_loop-seen zero bix w = refl
  rint_loop-seen (suc fuel) bix w = elim (Bool-cases (is_set (w.wide_rmd bix).rmd1 31)) [
    | inl e ↦ rw e refl
    | inr e ↦
        let (m, w₁) = wide_take_packet h w bix in
        rw e (
          rint_loop-seen fuel (next bix w.sc.sc_nrbuf) (wide_pass_up unlocked false (m, w₁))
          ∙ ap (λ sc. rint_loop h fuel (next bix w.sc.sc_nrbuf) sc)
              (pass_up-seen m w₁ ∙ ap (pass_up h) (take_packet-seen h w bix)))
  ]

  -- am79900.c sets up, receives and reclaims as am7990.c does at the same state, if what runs while the
  -- lock is dropped does: am79900_meminit leaves the same rings and counters, apart from the init
  -- block, and the loops of am79900_rint, not on i386, and of am79900_tint end in the same state at
  -- the same descriptor, or out of fuel or with a chip that has to be initialised alike.
  pub rings-seen :
      (w : Wide) (fuel rd n td : ℕ)
      → (seen (am79900_meminit h w) ≡ record (am7990_meminit h (seen w)) { init = w.sc.init })
        × (seen_rint (wide_rint_loop h unlocked false fuel rd w) ≡ rint_loop h fuel rd (seen w))
        × (seen_tint (wide_tint_loop w n td) ≡ tint_loop (seen w) n td)
  rings-seen w fuel rd n td = (meminit-seen h w, rint_loop-seen fuel rd w, tint_loop-seen w n td)
