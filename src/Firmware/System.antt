-- ===== src/Firmware/System.antt =====
-- The interrupts and the main loop as one system (rm32_stm32/src/isr_handlers.rs and the loop of
-- rm32_stm32/src/bin/main.rs): a step is one interrupt, the arrival of captured edges, or one part of a
-- round of the main loop, in any order. Interrupts come between all parts, and the parts in whatever
-- order; a round of the source is one such order.
use rm32_private.Base.{ℕ, Bool, ◌≡◌, Option, some, List, [], ◌∷◌, map}
use rm32_private.Sensors.{FixedPoint}
use rm32_private.MainLoop
use rm32_private.MainLoop.{Adc}
use rm32_private.MainLoop.Tick.{tick, tick_input}
use rm32_private.Isr.{Reads}
use rm32_private.Firmware.{
  Interrupt, handle_tim6, handle_tim14, handle_comp, handle_dma_tc, handle_exti_frame,
  handle_crsf_byte,
}
use rm32_private.Firmware.Boot.{Board, Chip, Machine, hardware, reload_watchdog, wait_for_interrupt}
use rm32_private.Firmware.Body.{
  step_sine, signal_arming, signal_error, prioritize, save, send_info, calling,
}

-- The main loop's machine has no shared cells of its own: they are those of the interrupts.
pub record System (U : Type 0) : Type 0 where
  pub interrupt : Interrupt
  pub machine : Machine U

-- The DMA channel fills the capture's buffer with edge times.
abbrev pub captured : List ℕ → Interrupt → Interrupt
captured edges m = record m {
  state = record (m.state) { input = record ((m.state).input) { dma_buf = edges } };
}

module _ {U : Type 0} where
  abbrev pub by_interrupt : Interrupt → System U → System U
  by_interrupt m s = record s { interrupt = m }

  -- The main loop's view, and what it leaves.
  abbrev pub view : System U → Machine U
  view s = record (s.machine) { shared = (s.interrupt).shared }

  abbrev pub by_main : Machine U → System U → System U
  by_main m s = record s { interrupt = record (s.interrupt) { shared = m.shared }; machine = m }

  -- The two ticks of `run_ticks`, each alone.
  abbrev pub as_world : Machine U → MainLoop.World U
  as_world m = record { shared = m.shared; main = m.main; calls = [] }

  abbrev pub from_world : MainLoop.World U → Machine U → Machine U
  from_world w m = calling (map hardware w.calls) (record m { shared = w.shared; main = w.main })

  abbrev pub run_input : Machine U → Machine U
  run_input m =
      let r = tick_input m.input_state (as_world m) in
      record (from_world r.0 m) { input_state = r.1 }

  abbrev pub run_main : FixedPoint U → Adc → Machine U → Machine U
  run_main fixed adc m = from_world (tick fixed adc (as_world m)) m

  -- The parts of a round of the main loop.
  pub data Part (fixed : FixedPoint U) (board : Board) (chip : Chip)
      : Machine U → Machine U → Type 0 where
    sine : (m : Machine U) → Part fixed board chip m (step_sine board chip m)
    input : (m : Machine U) → Part fixed board chip m (run_input m)
    iteration : (m : Machine U) (adc : Adc) → Part fixed board chip m (run_main fixed adc m)
    arming : (m : Machine U) → Part fixed board chip m (signal_arming board chip m)
    failing : (m : Machine U) → Part fixed board chip m (signal_error board m)
    priorities : (m : Machine U) → Part fixed board chip m (prioritize m)
    saving : (m : Machine U) → Part fixed board chip m (save m)
    informing : (m : Machine U) → Part fixed board chip m (send_info m)
    sleeping :
        (m : Machine U)
        → Part fixed board chip m (calling (reload_watchdog ∷ wait_for_interrupt ∷ []) m)

  pub data Step (fixed : FixedPoint U) (board : Board) (chip : Chip)
      (push : List ℕ → ℕ → Option (List ℕ)) (gcr_shift : ℕ) : System U → System U → Type 0 where
    edges :
        (s : System U) (times : List ℕ)
        → Step fixed board chip push gcr_shift s (by_interrupt (captured times s.interrupt) s)
    tim6 :
        (s : System U) (reads : Reads)
        → Step fixed board chip push gcr_shift s (by_interrupt (handle_tim6 reads s.interrupt) s)
    tim14 :
        (s : System U)
        → Step fixed board chip push gcr_shift s (by_interrupt (handle_tim14 s.interrupt) s)
    comp :
        (s : System U) (levels : ℕ → Bool) (count : ℕ)
        → Step fixed board chip push gcr_shift s
            (by_interrupt (handle_comp levels count s.interrupt) s)
    dma_tc :
        (s : System U)
        → Step fixed board chip push gcr_shift s
            (by_interrupt (handle_dma_tc gcr_shift s.interrupt) s)
    exti_frame :
        (s : System U) (pin_high : Bool)
        → Step fixed board chip push gcr_shift s
            (by_interrupt (handle_exti_frame pin_high s.interrupt) s)
    crsf_byte :
        (s : System U) (byte : ℕ) (m : Interrupt)
        → handle_crsf_byte push byte s.interrupt ≡ some m
        → Step fixed board chip push gcr_shift s (by_interrupt m s)
    main_loop :
        (s : System U) (m : Machine U)
        → Part fixed board chip (view s) m
        → Step fixed board chip push gcr_shift s (by_main m s)

  pub data Run (fixed : FixedPoint U) (board : Board) (chip : Chip)
      (push : List ℕ → ℕ → Option (List ℕ)) (gcr_shift : ℕ) (s : System U) : System U → Type 0 where
    here : Run fixed board chip push gcr_shift s s
    then_step :
        {t u : System U}
        → Run fixed board chip push gcr_shift s t
        → Step fixed board chip push gcr_shift t u
        → Run fixed board chip push gcr_shift s u
