-- ===== src/Control/Handlers/Laws.antt =====
-- Commands and the mode of the agent: what a switch by command does, and what no command breaks.
use linker_agent.Prelude.{
  ◌≡◌, refl, ◌∙◌, ap, ◌⊎◌, inl, inr, true, false, [], Option, none, some, Option-cases, Bool-cases,
  Text, codes, eq_text, eq_text→eq, arith,
}
use linker_agent.Agent.{Agent, Error as AgentError, Disk, Result, ok, err, is_mode, switch_mode}
use linker_agent.Agent.Laws.{file_of, Switched, switch_mode_lem, mode_not_empty}
use linker_agent.Control.{Params, Error, mode_required, invalid_mode, switch_mode_failed}
use linker_agent.Control.Handlers.{Handlers, string_param, handle_switch_mode}

module _ (d : Disk) (h : Handlers) (params : Params) where
  -- What the switch command does.
  abbrev pub ModeHandled : Handlers × Option Error → Type 0
  ModeHandled (h', r) =
      (h'.shutdown_in_progress ≡ h.shutdown_in_progress)
      × (((r ≡ none)
            × ((mode : Text) × (string_param (codes "mode") params ≡ some mode)
                × (is_mode mode ≡ true)
                × (h'.controller.mode ≡ mode)))
          ⊎ (((e : Error) × (r ≡ some e))
              × (h'.controller.mode ≡ h.controller.mode)
              × (file_of h'.controller ≡ file_of h.controller)))

  switch_without_mode :
      string_param (codes "mode") params ≡ none
      → handle_switch_mode d h params ≡ (h, some mode_required)
  unfolding handle_switch_mode
  switch_without_mode p = ground (arith, p)

  module _ (mode : Text) (p : string_param (codes "mode") params ≡ some mode) where
    switch_bad : is_mode mode ≡ false → (e : Error) × (handle_switch_mode d h params ≡ (h, some e))
    unfolding handle_switch_mode is_mode
    switch_bad bad = elim (Bool-cases (eq_text mode [])) [
      | inl empty ↦ (mode_required, ground (arith, p, empty))
      | inr given ↦ (invalid_mode mode, ground (arith, p, given, bad))
    ]

    switch_same :
        is_mode mode ≡ true
        → eq_text h.controller.mode mode ≡ true
        → handle_switch_mode d h params ≡ (h, none)
    unfolding handle_switch_mode is_mode
    switch_same good same = ground (arith, p, good, same, mode_not_empty mode good)

    switch_done :
        (a : Agent)
        → is_mode mode ≡ true
        → eq_text h.controller.mode mode ≡ false
        → switch_mode d h.controller mode ≡ (a, ok tt)
        → handle_switch_mode d h params ≡ (record h { controller = a }, none)
    unfolding handle_switch_mode is_mode
    switch_done a good new s = ground (arith, p, good, new, s, mode_not_empty mode good)

    switch_stuck :
        (a : Agent) (x : AgentError)
        → is_mode mode ≡ true
        → eq_text h.controller.mode mode ≡ false
        → switch_mode d h.controller mode ≡ (a, err x)
        → handle_switch_mode d h params ≡ (record h { controller = a }, some (switch_mode_failed x))
    unfolding handle_switch_mode is_mode
    switch_stuck a x good new s = ground (arith, p, good, new, s, mode_not_empty mode good)

    switched :
        is_mode mode ≡ true
        → eq_text h.controller.mode mode ≡ false
        → (a : Agent) (r : Result (Unit {0})) → switch_mode d h.controller mode ≡ (a, r)
        → Switched h.controller mode (a, r)
        → ModeHandled (handle_switch_mode d h params)
    switched good new a r s (inl (e, _, m, _)) =
        rw (switch_done a good new (s ∙ ap (λ x. (a, x)) e)) (refl, inl (refl, (mode, p, good, m)))
    switched good new a r s (inr (x, e, m, f)) =
        rw (switch_stuck a x good new (s ∙ ap (λ x. (a, x)) e))
          (refl, inr ((switch_mode_failed x, refl), m, f))

-- Without an error the switch command leaves the agent in the mode that the parameter names, one of
-- the two; with an error the agent's mode and its file are as they were.
pub handle_switch_mode_lem :
    (d : Disk) (h : Handlers) (params : Params)
    → ModeHandled d h params (handle_switch_mode d h params)
handle_switch_mode_lem d h params = elim (Option-cases (string_param (codes "mode") params)) [
  | inl p ↦ rw (switch_without_mode d h params p) (refl, inr ((mode_required, refl), refl, refl))
  | inr (mode, p) ↦ elim (Bool-cases (is_mode mode)) [
    | inr bad ↦
        let (e, x) = switch_bad d h params mode p bad in rw x (refl, inr ((e, refl), refl, refl))
    | inl good ↦ elim (Bool-cases (eq_text h.controller.mode mode)) [
      | inl same ↦
          rw (switch_same d h params mode p good same)
            (refl, inl (refl, (mode, p, good, eq_text→eq h.controller.mode mode same)))
      | inr new ↦
          let out = switch_mode d h.controller mode in
          switched d h params mode p good new out.0 out.1 refl (switch_mode_lem d h.controller mode)
    ]
  ]
]
