-- ===== src/Control/Handlers/Modes.antt =====
-- No run of commands takes the agent out of its two modes.
use linker_agent.Prelude.{
  ◌≡◌, refl, sym, ◌∙◌, ap, subst, inl, inr, true, List, [], ◌∷◌, Option, none, some, Text, lookup,
  lookup-All, All, ℤ, arith,
}
use linker_agent.Agent.{Disk, is_mode, stop, restart}
use linker_agent.Control.{
  Params, CommandFunc, Handler, Error, Command, Crypto, Reading, handle, new_handler,
  register_command,
}
use linker_agent.Control.Laws.Handle.{Handled, handle_lem, handle-after}
use linker_agent.Control.Laws.Runs.{handle_all}
use linker_agent.Control.Handlers.{
  Handlers, handle_stop, handle_start, handle_restart, handle_switch_mode, handle_upgrade,
  register_all,
}
use linker_agent.Control.Handlers.Laws.{ModeHandled, handle_switch_mode_lem}

abbrev KeepsMode : CommandFunc Handlers → Type 0
KeepsMode fn =
    (h : Handlers) (params : Params)
    → is_mode h.controller.mode ≡ true
    → is_mode (fn h params).0.controller.mode ≡ true

stop-KeepsMode : KeepsMode handle_stop
unfolding handle_stop stop
stop-KeepsMode h params m = ground (arith, m)

start-KeepsMode : KeepsMode handle_start
unfolding handle_start
start-KeepsMode h params m = m

restart-KeepsMode : KeepsMode handle_restart
unfolding handle_restart restart stop
restart-KeepsMode h params m = ground (arith, m)

upgrade-KeepsMode : KeepsMode handle_upgrade
unfolding handle_upgrade
upgrade-KeepsMode h params m = ground (arith, m)

switch_mode-KeepsMode : (d : Disk) → KeepsMode (handle_switch_mode d)
switch_mode-KeepsMode d h params m = from (handle_switch_mode_lem d h params)
  where
    from :
        ModeHandled d h params (handle_switch_mode d h params)
        → is_mode (handle_switch_mode d h params).0.controller.mode ≡ true
    from (_, inl (_, (mode, _, good, e))) = ap is_mode e ∙ good
    from (_, inr (_, e, _)) = ap is_mode e ∙ m

module _ (d : Disk) (k : Crypto) (secret : Text) (skew ttl : ℤ) where
  -- The handler with every command registered.
  abbrev pub registered : Handler Handlers
  registered = register_all d (new_handler secret skew ttl)

  registered-KeepsMode : All (λ e. KeepsMode e.1) registered.command_router
  unfolding register_all register_command new_handler
  registered-KeepsMode = (
    upgrade-KeepsMode,
    (switch_mode-KeepsMode d, (restart-KeepsMode, (start-KeepsMode, (stop-KeepsMode, tt)))),
  )

  handle-is_mode :
      (at : Reading) (h : Handler Handlers) (hs : Handlers) (c : Command)
      → h.command_router ≡ registered.command_router
      → is_mode hs.controller.mode ≡ true
      → is_mode (handle k at h hs c).0.1.controller.mode ≡ true
  handle-is_mode at h hs c e m = from (handle_lem k at h hs c)
    where
      ran :
          (fn : CommandFunc Handlers) (hs' : Handlers) (r : Option Error)
          → lookup c.command h.command_router ≡ some fn
          → fn hs c.params ≡ (hs', r)
          → is_mode hs'.controller.mode ≡ true
      ran fn hs' r l x =
          subst (λ y. is_mode y.0.controller.mode ≡ true) x
            (lookup-All KeepsMode c.command fn registered.command_router registered-KeepsMode
              (ap (lookup c.command) (sym e) ∙ l) hs c.params m)

      from :
          Handled k at h hs c (handle k at h hs c)
          → is_mode (handle k at h hs c).0.1.controller.mode ≡ true
      from (_, _, inl (_, (_, (fn, l, x)))) = ran fn _ none l x
      from (_, _, inr (_, _, inl same)) = ap (λ y. is_mode y.controller.mode) same ∙ m
      from (_, _, inr (r, _, inr (_, (fn, l, x)))) = ran fn _ (some r) l x

  handle_all_from :
      (h : Handler Handlers) (hs : Handlers) (rs : List (Reading × Command))
      → h.command_router ≡ registered.command_router
      → is_mode hs.controller.mode ≡ true
      → is_mode (handle_all k h hs rs).1.controller.mode ≡ true
  unfolding handle_all
  handle_all_from h hs [] e m = m
  handle_all_from h hs ((at, c) ∷ rs) e m =
      let next = (handle k at h hs c).0 in
      handle_all_from next.0 next.1 rs (ap (λ x. x.command_router) (handle-after k at h hs c) ∙ e)
        (handle-is_mode at h hs c e m)

  -- An agent in one of the two modes stays in one of them, whatever commands its control handler
  -- handles.
  pub handle_all-is_mode :
      (hs : Handlers) (rs : List (Reading × Command))
      → is_mode hs.controller.mode ≡ true
      → is_mode (handle_all k registered hs rs).1.controller.mode ≡ true
  handle_all-is_mode hs rs m = handle_all_from registered hs rs refl m
