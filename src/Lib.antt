-- ===== src/Lib.antt =====
-- anyrl: reinforcement learning in Go. The program has environments and wrappers of them (env.go,
-- wrappers.go), rewards, sets of rollouts and their reducers (rewards.go, rollout_set.go, reduce.go), the
-- roller of recurrent agents (rnn_roller.go), the judgers, natural gradients and trust regions of policy
-- gradients (anypg), evolution strategies: noise, slaves that run rollouts, maybe behind a proxy, and a
-- master that gives them jobs and keeps their parameters the same (anyes), and an asynchronous actor-critic
-- with its workers and its server of parameters (anya3c).
--
-- Files, each with its theorems in a folder of its name:
--   Prelude     lists by native numbers, errors, panics, `float64` as a parameter
--   Env         env.go: `Env` as a state machine (`Env`, `run`). Env/Space has `gymSpaceConverter` (`Converter`,
--               `converter_for_space`, `to_gym`, `from_gym`), Env/Gym has `GymEnv` (`gym_env`, `gym_reset`,
--               `gym_step`)
--   Wrappers    wrappers.go: `MaxStepsEnv` (`max_steps_reset`, `max_steps_step`), `MetaEnv` (`meta_reset`, `meta_step`)
--   Rewards     rewards.go: `Rewards` (`pack_rewards`, `tape`, `totals`, `mean`, `variance`, `reduce`)
--   RolloutSet  rollout_set.go and reduce.go: `RolloutSet`, `pack_rollout_sets`, `num_steps`, `frac_reduce`
--   Judger      anypg/judger.go: `QJudger`, `TotalJudger`, `GaeJudger` (`q_judge`, `total_judge`, `gae_judge`)
--   Noise       anyes/noise.go: `Noise` (`new_noise`, `gen`, `gen_sum`); Noise/Group has `NoiseGroup` (`group_init`,
--               `group_sum`)
--   ActionSpace action_space.go: `Tuple.Sample` (`tuple_sample`, `unpack_tuples`, `pack_tuples`),
--               `sample_probabilities`; ActionSpace/Densities has `Softmax`, `Bernoulli`, `Gaussian` and the rest of
--               `Tuple` (`softmax_kl`, `bernoulli_log_prob`, `gaussian_entropy`, `tuple_kl` and the like)
--   Slave       anyes/slave.go: `AnynetSlave.Init` and `Run` (`slave_init`, `slave_run`); Slave/Anynet has `Update`
--               (`slave_update`)
--   Master      anyes/master.go: `assignJobs`, `removeSlave` (`assign_jobs`, `remove_slave`); Master/Rounds has
--               `Rollouts` as a step relation (`Step`), Master/Adding `AddSlave` (`add_slave_to`), Master/Update
--               `Update` (`master_update`), Master/Scales `scalesAndSeeds` and anyes/stats.go
--   Proxy       anyes/proxy.go: `ProxyProvide` (`proxy_provide`), `slaveProxy` (`proxy_init`, `proxy_run`,
--               `proxy_update`), `ProxyConsume` and `ProxyListen` (`proxy_consume`, `listen_to`)
--   Roller      rnn_roller.go: `RNNRoller.Rollout` (`rollout`, `rollout_chans`, `rollout_step`, `batch_step`)
--   NaturalPg   anypg/natural_pg.go: `conjugateGradients` and `run` (`conjugate_gradients`, `run_natural`);
--               NaturalPg/Fisher has the maps of `applyFisher` (`apply_fisher`)
--   Trpo        anypg/trpo.go: `TRPO.Run` (`run_trpo`, `line_search`, `step_size`, `stepped_policy`)
--   Ppo         anypg/ppo.go: `PPOObjective` and the terms of `PPO.Run` (`ppo_objective`, `objective_terms`),
--               Ppo/Advantage `Advantage` (`ppo_advantage`), and
--               anypg/regularizer.go (`entropy_reg`, `inv_entropy_reg`, `kl_reg`)
--   ParamServer anya3c/param_server.go: `paramServer` with its goroutines (`exec`, `exec_all`); ParamServer/LocalCopy
--               has `LocalCopy` and anya3c/agent.go (`local_copy`, `copy_agent`)
--   Worker      anya3c/worker.go and anya3c/rollout.go: `worker` (`reset_worker`, `step_agent`, `step_env`),
--               `runRollout` and `Advantages` (`run_rollout`, `advantages`); Worker/Bptt has anya3c/bptt.go (`run_bptt`)
--   ActorCritic anya3c/a3c.go: `worker` and `update` (`worker_loop`, `update_worker`); ActorCritic/Crew has `Run` as a
--               step relation (`Step`)
--   Params      anyes/params.go: `safeParams` (`calls`); Params/Anynet has `AnynetParams` (`anynet_data`,
--               `anynet_set_data`, `anynet_update`, `anynet_checksum`, `split_mutation`)
--   Logger      anya3c/logger.go: `averager` (`add`), `AvgLogger` (`avg_log`), `StandardLogger` (`standard_log`)
--
-- How the parts meet: wrappers and slaves run any `Env`; judgers and reducers work on `Rewards`, which they
-- write to and read from tapes; the master gives the jobs that it makes to slaves, whose rollouts carry the
-- scale and the seed of the job; a proxy is a slave, whose connection leads to a provider of a slave; a worker
-- of the actor-critic copies the agent from the server of parameters, rolls it out, and sends it gradients; the
-- line search of a trust region starts from a natural gradient.
--
-- How the code is rendered. `float64` is any carrier with the operations of `Float`; no law of arithmetic is
-- assumed but where a theorem names it. A method with a receiver takes and gives back its state. An error is a
-- value, a panic is the constructor `panic`, `faults` or `none` where a definition says so. Goroutines of
-- `Rollouts` and of `A3C.Run` are moves of one state, in any order; locks make the moves atomic; a managed
-- slave is a number in place of its pointer, and a number is not used again. A call of `Rollouts`
-- begins with nothing sent on `slaveAdded` and with no goroutine of an earlier call. Goroutines of `Update` share the
-- pool and the channel of errors only, so they end in any order, each in one move. Goroutines of the server of
-- parameters are events that come in any order, where what is done under a lock is one event. Environments of
-- a roller share nothing, so the order in which they are stepped is left out. A gradient of natural_pg.go, a
-- map, is the list of its vectors, as all maps of one search have the same keys; in NaturalPg/Fisher it is a
-- list of pairs.
--
-- Fuel: `tape_from` has one round for each reward and one more; `indices_from` has one for each index and one
-- more, and `digits_from` has 64, one more than the bits of a draw; `run_loop` is given one more than the
-- limit of steps, and so is `run_rollout`; `worker_loop` needs one more than the rounds until it is stopped,
-- `rollout_chans` one more than the steps of its longest environment, and `provide_loop` one more than the
-- packets that arrive.
--
-- Parameters, for what is not in the repository: the gym binding, tapes of lazyseq, math/rand, and for a slave
-- its policy, its clock and the serialization of its parameters; blocks of anyrnn, samplers, vectors and
-- transformers of gradients, the connections of gobplexer, and for anypg the means over rollouts and the
-- product with the Fisher matrix.
--
-- Not modelled: the propagation for the Fisher product of natural_pg.go, the gradients of pg.go, and what `PPO.Run` and
-- `AverageReg` do with means over tapes. Mostly these are expressions of the vector library. Of gob, only that
-- what is sent arrives.
pub mod ActionSpace
pub mod ActorCritic
pub mod Env
pub mod Judger
pub mod Logger
pub mod Master
pub mod NaturalPg
pub mod Noise
pub mod ParamServer
pub mod Params
pub mod Ppo
pub mod Prelude
pub mod Proxy
pub mod Rewards
pub mod Roller
pub mod RolloutSet
pub mod Slave
pub mod Trpo
pub mod Worker
pub mod Wrappers
