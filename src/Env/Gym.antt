-- ===== src/Env/Gym.antt =====
-- env.go: `GymEnv` and the environment over a gym instance. The instance is another package's; its
-- methods are a parameter, with a state of their own.
use trpo.Prelude.{
  List, [], Bool, false, Option, none, some, ◌≡◌, refl, if◌then◌else◌, Bool-cases, inl, inr,
}
use trpo.Prelude.Float.{Float}
use trpo.Prelude.Failure.{Error, ctx, Result, ok, err, panic, ◌>>=◌, add_ctx, is_ok, is_panic}
use trpo.Env.{StepOut}
use trpo.Env.Space.{Space, Converter, converter_for_space, Action, to_gym, ObsApi, from_gym}
use trpo.Env.Fits.{Fits, to_gym-Fits}

-- The methods of a `gym.Env` that are called, over its states `G` and observations `O`.
pub record GymApi (F O G : Type 0) : Type 0 where
  pub action_space : G → Result Space
  pub observation_space : G → Result Space
  pub reset : G → Result O × G
  pub step : G → Action F → O × F × Bool × Option Error × G
  pub render : G → Option Error × G

pub record GymEnv (G : Type 0) : Type 0 where
  pub env : G
  pub render : Bool
  pub act_conv : Converter
  pub obs_conv : Converter

abbrev pub step_ctx : Error → Option Error
step_ctx e = some (ctx "step gym Env" e)

module _ {F O G : Type 0} ⦃fl : Float F⦄ (obs_api : ObsApi F O) (api : GymApi F O G) where
  -- `GymEnv`
  unfoldable pub gym_env : G → Bool → Result (GymEnv G)
  gym_env e render = add_ctx "create gym Env" (
      api.action_space e >>= λ action_space. api.observation_space e >>= λ obs_space.
      converter_for_space action_space >>= λ act_conv. converter_for_space obs_space >>= λ obs_conv.
      ok (record { env = e; render = render; act_conv = act_conv; obs_conv = obs_conv }))

  -- `if g.render { if err := g.env.Render(); err != nil { ... } }`
  render_if : Bool → G → Option Error × G
  render_if render e = if render then api.render e else (none, e)

  unfoldable pub gym_reset : GymEnv G → Result (List F) × GymEnv G
  unfolding render_if
  gym_reset g =
      let (r, e) = api.reset g.env in
      let (problem, e') = render_if g.render e in
      elim r [
        | panic ↦ (panic, record g { env = e })
        | err bad ↦ (add_ctx "reset gym Env" (err bad), record g { env = e })
        | ok obs ↦ elim problem [
          | some bad ↦ (add_ctx "reset gym Env" (err bad), record g { env = e' })
          | none ↦
              (add_ctx "reset gym Env" (from_gym obs_api g.obs_conv obs), record g { env = e' })
        ]
      ]

  -- The end of `Step`: the observation is converted. `none` is a panic.
  finish_step : F → Bool → Result (List F) → Option (StepOut F)
  finish_step rew done panic = none
  finish_step rew done (err bad) =
      some (record { obs = []; rew = rew; done = done; error = step_ctx bad })
  finish_step rew done (ok vec) = some (record { obs = vec; rew = rew; done = done; error = none })

  -- The part of `Step` that runs with an action for gym.
  gym_act : GymEnv G → Action F → Option (StepOut F) × GymEnv G
  unfolding render_if finish_step
  gym_act g action =
      let (obs, rew, done, problem, e) = api.step g.env action in
      let (problem', e') = render_if g.render e in
      let stop =
        λ (bad : Error). some (record { obs = []; rew = rew; done = done; error = step_ctx bad }) in
      elim problem [
        | some bad ↦ (stop bad, record g { env = e })
        | none ↦ elim problem' [
          | some bad ↦ (stop bad, record g { env = e' })
          | none ↦ (finish_step rew done (from_gym obs_api g.obs_conv obs), record g { env = e' })
        ]
      ]

  unfoldable pub gym_step : GymEnv G → List F → Option (StepOut F) × GymEnv G
  unfolding gym_act
  gym_step g action = elim (to_gym g.act_conv action) [
    | panic ↦ (none, g)
    | err bad ↦ (some (record { obs = []; rew = fl.of_ℕ 0; done = false; error = step_ctx bad }), g)
    | ok gym_action ↦ gym_act g gym_action
  ]

  refuses :
      (g : GymEnv G) (action : List F) (r : Result (Action F))
      → to_gym g.act_conv action ≡ r
      → is_ok r ≡ false
      → is_panic r ≡ false
      → (bad : Error) × (gym_step g action
          ≡ (some (record { obs = []; rew = fl.of_ℕ 0; done = false; error = step_ctx bad }), g))
  unfolding gym_step
  refuses g action panic e h k = cc
  refuses g action (err bad) e h k = (bad, rw (e, gym_step))
  refuses g action (ok a) e h k = cc

  -- `Step` on a vector that is none of the action space returns an error with the context of `Step`, a
  -- reward of 0 and no observation, and neither steps nor renders the gym instance.
  pub gym_step_misfit :
      (g : GymEnv G) (action : List F)
      → ¬ Fits g.act_conv action
      → (bad : Error) × (gym_step g action
          ≡ (some (record { obs = []; rew = fl.of_ℕ 0; done = false; error = step_ctx bad }), g))
  gym_step_misfit g action h =
      let (accepts, safe) = to_gym-Fits g.act_conv action in
      refuses g action (to_gym g.act_conv action) refl
        (elim (Bool-cases (is_ok (to_gym g.act_conv action))) [
          | inl e ↦ absurd (h (accepts.0 e))
          | inr e ↦ e
        ])
        safe
