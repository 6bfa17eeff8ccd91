-- ===== src/Firmware/Globals.antt =====
-- The two cells that hold the state of the interrupts (rm32_stm32/src/isr.rs and `IsrCell` of
-- rm32_stm32/src/isr_handlers.rs): the one that the start fills, and the one that the first interrupt moves
-- it to.
use rm32_private.Base.{Option, none, some, ◌≡◌, ap, ◌∙◌, sym}
use rm32_private.Firmware.{IsrState}

pub record Globals : Type 0 where
  pub isr_state : Option IsrState
  pub isr_local : Option IsrState

abbrev pub empty : Globals
empty = record { isr_state = none; isr_local = none }

unfoldable pub init_isr_state : IsrState → Globals → Globals
init_isr_state st g = record g { isr_state = some st }

unfoldable pub take_isr_state : Globals → Globals × Option IsrState
take_isr_state g = (record g { isr_state = none }, g.isr_state)

-- What a closure does to the state, where there is one.
unfoldable pub with_isr_state : (IsrState → IsrState) → Globals → Globals
with_isr_state f g = record g {
  isr_state = elim (g.isr_state) [ some st ↦ some (f st) | none ↦ none ];
}

abbrev filled : Globals × Option IsrState → Option (Globals × IsrState)
filled (g, none) = none
filled (g, some st) = some (record g { isr_local = some st }, st)

abbrev pub local_or : Option IsrState → Globals → Option (Globals × IsrState)
local_or none g = filled (take_isr_state g)
local_or (some st) g = some (g, st)

-- `IsrCell::get`; `none` is the panic of `expect`.
unfoldable pub get : Globals → Option (Globals × IsrState)
unfolding take_isr_state
get g = local_or g.isr_local g

-- An interrupt: the handler's effect on the state.
unfoldable pub interrupted : (IsrState → IsrState) → Globals → Option Globals
unfolding get
interrupted f g = elim (get g) [
  | none ↦ none
  | some (g', st) ↦ some (record g' { isr_local = some (f st) })
]

-- The first interrupt, where the start has filled the main loop's cell.
pub interrupted-first :
    (f : IsrState → IsrState) (g g' : Globals) (st : IsrState)
    → g.isr_state ≡ some st
    → g.isr_local ≡ none
    → interrupted f g ≡ some g'
    → g' ≡ record { isr_state = none; isr_local = some (f st) }
unfolding interrupted
interrupted-first f g g' st e l i =
    let given : Globals = record { isr_state = some st; isr_local = none } in
    let same : given ≡ g = λ k. record { isr_state = sym e k; isr_local = sym l k } in
    let done : some (record { isr_state = none; isr_local = some (f st) }) ≡ some g' =
      ap (interrupted f) same ∙ i in
    cc

moved :
    (f : IsrState → IsrState) (s : Option IsrState) (g' : Globals)
    → interrupted f (record { isr_state = s; isr_local = none }) ≡ some g'
    → g'.isr_state ≡ none
unfolding interrupted
moved f none g' e = cc
moved f (some st) g' e =
    let same : g' ≡ record { isr_state = none; isr_local = some (f st) } = cc in
    ap (λ (t : Globals). t.isr_state) same

-- The first interrupt takes the state away from the main loop's cell.
pub interrupted-takes :
    (f : IsrState → IsrState) (g g' : Globals)
    → g.isr_local ≡ none
    → interrupted f g ≡ some g'
    → g'.isr_state ≡ none
interrupted-takes f g g' fresh e =
    moved f g.isr_state g'
      (ap (λ (l : Option IsrState). interrupted f (record g { isr_local = l })) (sym fresh) ∙ e)

-- No later one brings it back.
stays :
    (f : IsrState → IsrState) (l : Option IsrState) (g' : Globals)
    → interrupted f (record { isr_state = none; isr_local = l }) ≡ some g'
    → g'.isr_state ≡ none
unfolding interrupted
stays f none g' e = cc
stays f (some st) g' e =
    let same : g' ≡ record { isr_state = none; isr_local = some (f st) } = cc in
    ap (λ (t : Globals). t.isr_state) same

pub interrupted-stays :
    (f : IsrState → IsrState) (g g' : Globals)
    → g.isr_state ≡ none
    → interrupted f g ≡ some g'
    → g'.isr_state ≡ none
interrupted-stays f g g' gone e =
    stays f g.isr_local g'
      (ap (λ (t : Option IsrState). interrupted f (record g { isr_state = t })) (sym gone) ∙ e)

-- A closure then does nothing.
pub with_isr_state-nothing :
    (f : IsrState → IsrState) (g : Globals) → g.isr_state ≡ none → with_isr_state f g ≡ g
unfolding with_isr_state
with_isr_state-nothing f g gone =
    ap
      (λ (t : Option IsrState). record g {
        isr_state = elim t [ some st ↦ some (f st) | none ↦ none ];
      })
      gone
    ∙ ap (λ (t : Option IsrState). record g { isr_state = t }) (sym gone)
