-- ===== src/Bus/Interrupt.antt =====
-- Interrupts of a device: installing a handler, the common first-level handler that hands the work
-- to the task queue, and removing the handler again. Functions and objects are numbers, 0 is null.
use rtems_libbsdport.Prelude.{
  ℕ, ◌<◌, ◌≡◌, refl, ◌≢◌, ap, ◌∙◌, not, ◌&&◌, Option, none, some, List, [], ◌∷◌, ◌++◌, arith, ◌==◌,
  if◌then◌else◌,
}
use rtems_libbsdport.Prelude.Memory.{null}
use rtems_libbsdport.Taskqueue
use rtems_libbsdport.Taskqueue.{
  Tq, task_init, taskqueue_enqueue, taskqueue_drain, Env, taskqueue_work,
}
use rtems_libbsdport.Taskqueue.Chain.{IsQueue}
use rtems_libbsdport.Taskqueue.Enqueue.{IsTask, enqueue-IsQueue, enqueue-wakes, enqueue-fields}
use rtems_libbsdport.Taskqueue.Work.{quiet, work-quiet, countdown}
use mathlib.Core.List.{append_assoc}

-- The driver's methods, as far as they matter here: null where the driver has none.
pub record Methods : Type 0 where
  pub irq_check_dis : ℕ
  pub irq_en : ℕ

-- `struct irq_cookie`, at the address `info`. Its `struct task` is the task `info` of the queue.
pub record Cookie : Type 0 where
  pub info : ℕ
  pub handler : ℕ
  pub work : ℕ
  pub arg : ℕ
  pub irq_check_dis : ℕ
  pub irq_en : ℕ

-- What the file takes from the system: the addresses of its own two functions, what `malloc`
-- returns, and the shared-interrupt interface of the board support package.
pub record Board : Type 0 where
  pub sysbus_isr : ℕ
  pub sysbus_taskfn : ℕ
  pub malloc : ℕ
  pub install : (irq fn arg : ℕ) → ℕ
  pub remove : (irq fn arg : ℕ) → ℕ

-- EINVAL, ENOMEM, or what `install` returned; or the cookie, with the function and the argument that
-- have been installed.
pub data Setup : Type 0 where
  einval enomem : Setup
  refused : ℕ → Setup
  installed : Cookie → (fn arg : ℕ) → Tq → Setup

pub data Run (A : Type 0) : Type 0 where
  ok : A → Run A
  panic : Run A

-- bus_setup_intr. `methods` is none where the device has no driver.
unfoldable pub bus_setup_intr :
    Board → Tq → (methods : Option Methods) → (r filter handler arg : ℕ) → Run Setup
bus_setup_intr b tq methods r filter handler arg =
    let has_handler = not (handler == null) in
    let check : ℕ = elim methods [ none ↦ null | some m ↦ m.irq_check_dis ] in
    let enable : ℕ = elim methods [ none ↦ null | some m ↦ m.irq_en ] in
    let cookie : Cookie = record {
      info = b.malloc;
      handler = filter;
      work = handler;
      arg = arg;
      irq_check_dis = if has_handler then check else null;
      irq_en = if has_handler then enable else null;
    } in
    let fn = if has_handler then b.sysbus_isr else filter in
    let fn_arg = if has_handler then b.malloc else arg in
    let tq' =
      if has_handler
      then task_init tq b.malloc 0 b.sysbus_taskfn b.malloc
      else task_init tq b.malloc 0 null null in
    let rval = b.install r fn fn_arg in
    if not (filter == null) && has_handler
    then panic
    else if has_handler && (check == null)
    then ok einval
    else if b.malloc == null
    then ok enomem
    else if rval == 0
    then ok (installed cookie fn fn_arg tq')
    else ok (refused rval)

-- bus_teardown_intr: what it passes to the board's remove function, and the queue after it.
unfoldable pub removes : Cookie → ℕ × ℕ
removes c = (c.handler, c.arg)

unfoldable pub bus_teardown_intr :
    Board → Env → (fuel : ℕ) → Tq → (r : ℕ) → Cookie → Option (ℕ × Tq)
unfolding removes
bus_teardown_intr b env fuel tq r c =
    let (fn, arg) = removes c in
    let rval = b.remove r fn arg in
    if (rval == 0) && not (tq.ta_fn c.info == null)
    then elim (taskqueue_drain env fuel c.info tq) [ none ↦ none | some tq' ↦ some (rval, tq') ]
    else some (rval, tq)

-- sysbus_isr, where `irq_check_dis` has returned `rval`: FILTER_HANDLED is 0.
unfoldable pub sysbus_isr : (info rval : ℕ) → Tq → ℕ × Tq
sysbus_isr info rval tq = if rval == 0 then (rval, taskqueue_enqueue tq info) else (rval, tq)

-- sysbus_taskfn: the calls that it makes.
unfoldable pub sysbus_taskfn : Cookie → List (ℕ × ℕ)
sysbus_taskfn c = (c.work, c.arg) ∷ (if c.irq_en == null then [] else (c.irq_en, c.info) ∷ [])

-- A handler without a filter is installed as the pair of `sysbus_isr` and the cookie, and removed as
-- the pair of a null function and the driver's argument: the two pairs differ.
pub teardown_mismatch :
    (b : Board) (tq tq' : Tq) (methods : Option Methods) (r handler arg : ℕ) (c : Cookie)
    (fn fn_arg : ℕ)
    → b.sysbus_isr ≢ null
    → handler ≢ null
    → bus_setup_intr b tq methods r null handler arg ≡ ok (installed c fn fn_arg tq')
    → (fn ≡ b.sysbus_isr) × (fn_arg ≡ c.info) × ((removes c).0 ≡ null) × ((removes c).0 ≢ fn)
unfolding bus_setup_intr removes
teardown_mismatch b tq tq' methods r handler arg c fn fn_arg ni nh e = ground arith

-- A filter is removed as the pair that was installed.
pub teardown_filter :
    (b : Board) (tq tq' : Tq) (methods : Option Methods) (r filter arg : ℕ) (c : Cookie)
    (fn fn_arg : ℕ)
    → bus_setup_intr b tq methods r filter null arg ≡ ok (installed c fn fn_arg tq')
    → ((removes c).0 ≡ fn) × ((removes c).1 ≡ fn_arg)
unfolding bus_setup_intr removes
teardown_filter b tq tq' methods r filter arg c fn fn_arg e = ground arith

-- An interrupt that the device owns, on an empty queue, wakes the worker, whose next round calls the
-- cookie's task function once, and leaves the queue empty.
pub isr_then_work :
    (tq : Tq) (info fuel : ℕ)
    → IsQueue tq [] [] null
    → IsTask info
    → 1 < fuel
    → (s : Tq) × (taskqueue_work quiet fuel (sysbus_isr info 0 tq).1 ≡ some (null, s))
      × (s.effects
          ≡ tq.effects
            ++ (Taskqueue.event_sent tq.tid
                ∷ Taskqueue.called (tq.ta_fn info) (tq.ta_fn_arg info) 1
                ∷ []))
      × IsQueue s [] [] null
unfolding sysbus_isr
isr_then_work tq info fuel q t f =
    let q₁ = enqueue-IsQueue tq [] [] null q info t in
    let u = taskqueue_enqueue tq info in
    let (fn, arg, count) = enqueue-fields tq info in
    let (s, run, empty, log) = work-quiet fuel u (info ∷ []) q₁ f in
    let zero_before : tq.ta_pending info ≡ 0 = ground (arith, q.queued info) in
    let once : u.ta_pending info ≡ 1 = rw count (ground arith) in
    let wakes : u.effects ≡ tq.effects ++ (Taskqueue.event_sent tq.tid ∷ []) =
      enqueue-wakes tq [] [] null info q t refl in
    let calls =
      ap (λ e. e ++ (countdown (u.ta_fn info) (u.ta_fn_arg info) (u.ta_pending info) ++ [])) wakes
      ∙ (λ k.
          (tq.effects ++ (Taskqueue.event_sent tq.tid ∷ []))
          ++ (countdown (fn k info) (arg k info) (once k) ++ []))
      ∙ append_assoc tq.effects (Taskqueue.event_sent tq.tid ∷ [])
          (Taskqueue.called (tq.ta_fn info) (tq.ta_fn_arg info) 1 ∷ []) in
    (s, run, log ∙ calls, empty)
