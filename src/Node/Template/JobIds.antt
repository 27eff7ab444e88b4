-- ===== src/Node/Template/JobIds.antt =====
-- template.rs and job.rs: job identifiers are read back.
use stratum_server_nng.Base.{
  ℕ, ◌<◌, String, ◌≡◌, refl, ap, subst, ◌∙◌, Bool, true, not, Option, none, some, arith, ◌==◌,
  append_text, decimal, u64_bound, parse_u64, every_mono, digit_code, decimal-every,
  parse_u64-decimal, lacks,
}
use stratum_server_nng.Stratum.Job.{
  MiningJob, split_last, metadata_of, both_u64, parse_template_metadata_from_job_id,
}
use stratum_server_nng.Node.Template.{
  Codec, MiningTemplate, job_id_of, job_of, sized_job, template_to_job,
  compute_block_size_with_extranonce,
}

split_last-lacks : (b : String) → lacks b'-' b ≡ true → split_last b ≡ none
unfolding split_last
split_last-lacks String.[] h = refl
split_last-lacks (String.◌∷◌ c s) h =
    rw (split_last-lacks s (ground arith), split_last) (ground arith)

split_last-append_text :
    (a b : String)
    → lacks b'-' b ≡ true
    → split_last (append_text a (append_text "-" b)) ≡ some (a, b)
unfolding split_last
split_last-append_text String.[] b h = rw (split_last-lacks b h, split_last) refl
split_last-append_text (String.◌∷◌ c a) b h = rw (split_last-append_text a b h, split_last) refl

decimal-lacks : (n : ℕ) → lacks b'-' (decimal n) ≡ true
decimal-lacks n =
    every_mono digit_code (λ k. not (k == b'-')) (decimal n) (λ k h. ground arith) (decimal-every n)

parse_template_metadata_from_job_id-job_id_of :
    (t e : ℕ)
    → t < u64_bound
    → e < u64_bound
    → parse_template_metadata_from_job_id (job_id_of t e) ≡ some (t, e)
unfolding parse_template_metadata_from_job_id job_id_of
parse_template_metadata_from_job_id-job_id_of t e h k =
    ap metadata_of (split_last-append_text (decimal t) (decimal e) (decimal-lacks e))
    ∙ ap (λ m. both_u64 m (parse_u64 (decimal e))) (parse_u64-decimal t h)
    ∙ ap (both_u64 (some t)) (parse_u64-decimal e k)

sized_job-id :
    (X : Codec) (t : MiningTemplate) (clean_jobs : Bool) (job : MiningJob) (size : Option ℕ)
    → t.template_id < u64_bound
    → t.curtime < u64_bound
    → sized_job X t clean_jobs size ≡ some job
    → parse_template_metadata_from_job_id job.job_id ≡ some (job.template_id, job.template_epoch)
sized_job-id X t clean_jobs job none h k e = cc e
sized_job-id X t clean_jobs job (some size) h k e =
    let same : job_of X t clean_jobs size ≡ job = cc e in
    subst
      (λ j. parse_template_metadata_from_job_id j.job_id ≡ some (j.template_id, j.template_epoch))
      same (parse_template_metadata_from_job_id-job_id_of t.template_id t.curtime h k)

-- The identifier of the job of a template, whose numbers are below 2^64, is parsed back to the
-- template and the epoch of the job.
pub template_to_job-id :
    (X : Codec) (t : MiningTemplate) (clean_jobs : Bool) (job : MiningJob)
    → t.template_id < u64_bound
    → t.curtime < u64_bound
    → template_to_job X t clean_jobs ≡ some job
    → parse_template_metadata_from_job_id job.job_id ≡ some (job.template_id, job.template_epoch)
unfolding template_to_job
template_to_job-id X t clean_jobs job h k e =
    sized_job-id X t clean_jobs job
      (compute_block_size_with_extranonce X t.block t.coinbase1 t.coinbase2) h k e
