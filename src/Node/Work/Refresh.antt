-- ===== src/Node/Work/Refresh.antt =====
-- consumer.rs: a refresh of the mining work.
use stratum_server_nng.Base.{
  ℕ, ◌≤◌, ◌≡◌, refl, ap, ◌⊎◌, inl, inr, true, Option, none, some, [], ◌∷◌,
}
use stratum_server_nng.Stratum.Job.{MiningJob}
use stratum_server_nng.Node.JobCache.{JobCache, get, get_latest}
use stratum_server_nng.Node.JobCache.Order.{insert_latest}
use stratum_server_nng.Node.Template.{
  Codec, MiningTemplate, template_to_job, job_id_of, job_of, sized_job,
  compute_block_size_with_extranonce,
}
use stratum_server_nng.Node.Work.{
  MiningWorkChanged, refreshed, miningwrkchg_reason_to_string, on_mining_work_changed,
}

-- What the job of a template is.
pub record IsJobOf (t : MiningTemplate) (e : MiningWorkChanged) (job : MiningJob) : Type 0 where
  pub clean : job.clean_jobs ≡ true
  pub reason : job.reason ≡ miningwrkchg_reason_to_string e.reason
  pub template_id : job.template_id ≡ t.template_id
  pub epoch : job.template_epoch ≡ t.curtime
  pub target : job.network_target_hex ≡ t.target_hex
  pub job_id : job.job_id ≡ job_id_of t.template_id t.curtime

refreshed_latest :
    (X : Codec) (t : MiningTemplate) (cache : JobCache) (e : MiningWorkChanged) (size : Option ℕ)
    → 1 ≤ cache.max_size
    → let (cache', jobs) = refreshed cache e (sized_job X t true size) in
      ((cache' ≡ cache) × (jobs ≡ []) × (size ≡ none))
      ⊎ ((job : MiningJob) × (jobs ≡ job ∷ [])
          × (get_latest cache' ≡ some job)
          × (get cache' job.job_id ≡ some job)
          × IsJobOf t e job)
refreshed_latest X t cache e none h = inl (refl, refl, refl)
refreshed_latest X t cache e (some size) h =
    let job = record (job_of X t true size) { reason = miningwrkchg_reason_to_string e.reason } in
    let (latest, found, bounded) = insert_latest cache job h in
    inr (
      job,
      refl,
      latest,
      found,
      record {
        clean = refl;
        reason = refl;
        template_id = refl;
        epoch = refl;
        target = refl;
        job_id = refl;
      },
    )

-- With room for at least one job in the cache, a change of the mining work for which a template
-- is fetched either does nothing, because the template does not convert, or broadcasts one job,
-- which is the latest of the cache, is found under its identifier, clears earlier jobs, and has
-- the reason of the change and the identifiers and the target of the template.
pub on_mining_work_changed_latest :
    (X : Codec) (t : MiningTemplate) (cache : JobCache) (e : MiningWorkChanged)
    → 1 ≤ cache.max_size
    → let (cache', jobs) = on_mining_work_changed X (some t) cache e in
      ((cache' ≡ cache) × (jobs ≡ []) × (template_to_job X t true ≡ none))
      ⊎ ((job : MiningJob) × (jobs ≡ job ∷ [])
          × (get_latest cache' ≡ some job)
          × (get cache' job.job_id ≡ some job)
          × IsJobOf t e job)
unfolding on_mining_work_changed template_to_job
on_mining_work_changed_latest X t cache e h =
    elim (refreshed_latest X t cache e
      (compute_block_size_with_extranonce X t.block t.coinbase1 t.coinbase2) h) [
        | inl (kept, silent, failed) ↦ inl (kept, silent, ap (sized_job X t true) failed)
        | inr job ↦ inr job
      ]
