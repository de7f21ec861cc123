-- ===== src/Retry/Retried.antt =====
-- internal/provisioner/retryable.go: which errors ClassifyError lets a job try again, exactly.
use selfservice_api.Base.{
  ℕ, ◌≡◌, refl, ◌↔◌, ◌⊎◌, inl, inr, List, [], ◌∷◌, some, Bool, true, false, String, str_eq_iff,
  if◌then◌else◌, In, arith,
}
use selfservice_api.Retry.{JobError, codes, to_lower}
use selfservice_api.Retry.Phrases.{
  deterministic_phrases, import_timeout_phrases, stale_clone_phrase, disk_format_phrase,
  connection_phrases, timeout_phrases, unavailable_phrases, clone_job_types,
}
use selfservice_api.Retry.Classify.{
  no_retry, retry, is_clone_job, classify_transient, classify_clone, classify_vcenter,
  import_timed_out, classify_text, classify_marked, classify_error,
}
use selfservice_api.Retry.Mentions.{
  Mentions, MentionsAny, MentionsAnyFolded, contains_iff, contains_any_iff, contains_any_folded_iff,
}

is_clone_job_iff : (ts : List String) (t : String) → (is_clone_job ts t ≡ true) ↔ In t ts
unfolding is_clone_job
is_clone_job_iff [] t = (λ h. cc, λ m. absurd m)
is_clone_job_iff (x ∷ ts) t =
    let rest = is_clone_job_iff ts t in
    let one = str_eq_iff t x in
    (λ h. ground (arith, one, rest, h), λ m. ground (arith, one, rest, m))

-- Three shapes of a test: both answers are retries or not; a retry; a refusal.
if_iff :
    {P Q R : Type 0} (b : Bool) (x y : Bool × String)
    → (b ≡ true) ↔ P
    → (x.0 ≡ true) ↔ Q
    → (y.0 ≡ true) ↔ R
    → ((if b then x else y).0 ≡ true) ↔ ((P × Q) ⊎ ((P → ⊥) × R))
if_iff true x y p q r = (
  λ h. inl (p.0 refl, q.0 h),
  λ s. elim s [ inl (a, c) ↦ q.1 c | inr (n, c) ↦ absurd (n (p.0 refl)) ],
)
if_iff false x y p q r = (
  λ h. inr (λ a. absurd (clash (p.1 a)), r.0 h),
  λ s. elim s [ inl (a, c) ↦ absurd (clash (p.1 a)) | inr (n, c) ↦ r.1 c ],
)
  where
    clash : false ≡ true → ⊥
    clash e = cc

if_retry :
    {P R : Type 0} (b : Bool) (reason : String) (y : Bool × String)
    → (b ≡ true) ↔ P
    → (y.0 ≡ true) ↔ R
    → ((if b then retry reason else y).0 ≡ true) ↔ (P ⊎ R)
if_retry true reason y p r = (λ h. inl (p.0 refl), λ s. refl)
if_retry false reason y p r =
    (λ h. inr (r.0 h), λ s. elim s [ inl a ↦ absurd (clash (p.1 a)) | inr c ↦ r.1 c ])
  where
    clash : false ≡ true → ⊥
    clash e = cc

if_refuse :
    {P R : Type 0} (b : Bool) (y : Bool × String)
    → (b ≡ true) ↔ P
    → (y.0 ≡ true) ↔ R
    → ((if b then no_retry else y).0 ≡ true) ↔ ((P → ⊥) × R)
if_refuse true y p r = (λ h. cc, λ (n, c). absurd (n (p.0 refl)))
if_refuse false y p r = (λ h. (λ a. absurd (clash (p.1 a)), r.0 h), λ (n, c). r.1 c)
  where
    clash : false ≡ true → ⊥
    clash e = cc

if_only :
    {P : Type 0} (b : Bool) (reason : String)
    → (b ≡ true) ↔ P
    → ((if b then retry reason else no_retry).0 ≡ true) ↔ P
if_only true reason p = (λ h. p.0 refl, λ a. refl)
if_only false reason p = (λ h. cc, λ a. p.1 a)

same_iff : (b : Bool) → (b ≡ true) ↔ (b ≡ true)
same_iff b = (λ h. h, λ h. h)

-- A connection broke, a task of vCenter took too long, or a resource was missing for a time.
abbrev pub IsTransient : List ℕ → Type 0
IsTransient s =
    MentionsAnyFolded s connection_phrases
    ⊎ (MentionsAny s timeout_phrases ⊎ MentionsAnyFolded s unavailable_phrases)

-- The disk format fault counts for a job that clones, and rules the other phrases out.
abbrev pub IsTransientFor : List ℕ → String → Type 0
IsTransientFor s job_type =
    (Mentions s disk_format_phrase × In job_type clone_job_types)
    ⊎ ((Mentions s disk_format_phrase → ⊥) × IsTransient s)

abbrev pub IsSlowImport : JobError → String → Type 0
IsSlowImport err job_type =
    (job_type ≡ "image_import")
    × ((err.job_lease_lost ≡ true) ⊎ MentionsAny (to_lower err.text) import_timeout_phrases)

-- What the rest of the error says, where no mark decides.
abbrev pub IsPassing : JobError → String → Type 0
IsPassing err job_type =
    IsSlowImport err job_type
    ⊎ ((err.placement_unavailable ≡ true)
        ⊎ ((err.capacity_release ≡ true)
            ⊎ (Mentions err.text stale_clone_phrase ⊎ IsTransientFor err.text job_type)))

-- The errors after which a job is tried again.
abbrev pub IsRetried : JobError → String → Type 0
IsRetried err job_type =
    ((err.blocked_by_mutator ≡ true) × (job_type ≡ "vm_destroy"))
    ⊎ ((err.blocked_by_mutator ≡ true → ⊥)
        × ((err.compensated ≡ true → ⊥)
            × ((err.manual_cleanup ≡ true → ⊥)
                × ((err.compensation_retry ≡ true)
                    ⊎ (((err.pod_create_cleanup_retry ≡ true) × (job_type ≡ "pod_create"))
                        ⊎ ((err.pod_create_cleanup_retry ≡ true → ⊥)
                            × ((MentionsAnyFolded err.text deterministic_phrases → ⊥)
                                × IsPassing err job_type)))))))

classify_transient-IsTransient : (s : List ℕ) → ((classify_transient s).0 ≡ true) ↔ IsTransient s
unfolding classify_transient
classify_transient-IsTransient s = if_retry _ _ _ (contains_any_folded_iff s connection_phrases) (
    if_retry _ _ _ (contains_any_iff s timeout_phrases)
      (if_only _ _ (contains_any_folded_iff s unavailable_phrases)))

clone_iff :
    (s : List ℕ) (job_type : String)
    → ((classify_clone s job_type).0 ≡ true) ↔ IsTransientFor s job_type
unfolding classify_clone
clone_iff s job_type =
    if_iff _ _ _ (contains_iff s (codes disk_format_phrase))
      (if_only _ _ (is_clone_job_iff clone_job_types job_type)) (classify_transient-IsTransient s)

import_iff :
    (err : JobError) (job_type : String)
    → (import_timed_out err job_type ≡ true) ↔ IsSlowImport err job_type
unfolding import_timed_out
import_iff err job_type =
    let any = contains_any_iff (to_lower err.text) import_timeout_phrases in
    ground (arith, str_eq_iff job_type "image_import", any)

text_iff :
    (err : JobError) (job_type : String)
    → ((classify_text err job_type).0 ≡ true)
      ↔ ((MentionsAnyFolded err.text deterministic_phrases → ⊥) × IsPassing err job_type)
unfolding classify_text classify_vcenter
text_iff err job_type = if_refuse _ _ (contains_any_folded_iff err.text deterministic_phrases) (
    if_retry _ _ _ (import_iff err job_type) (
      if_retry _ _ _ (same_iff err.placement_unavailable) (
        if_retry _ _ _ (same_iff err.capacity_release) (
          if_retry _ _ _ (contains_iff err.text (codes stale_clone_phrase))
            (clone_iff err.text job_type)))))

-- ClassifyError lets a job try again exactly if its error is retried by this account of it. A
-- destruction that a mutator blocks is. Of all other errors none is that was compensated or is left to a
-- person; a requested compensation is, and the clean-up of a pod's creation for that job; of the rest
-- none whose text holds a deterministic phrase in any mix of small and large letters, and otherwise an
-- import that timed out, a placement that could not be validated or released, a stale clone, the disk
-- format fault for a job that clones, and without that fault a broken connection, a slow task or a
-- missing resource. Nothing else is.
pub classify_error-IsRetried :
    (err : JobError) (job_type : String)
    → ((classify_error (some err) job_type).0 ≡ true) ↔ IsRetried err job_type
unfolding classify_error classify_marked
classify_error-IsRetried err job_type =
    if_iff _ _ _ (same_iff err.blocked_by_mutator) (if_only _ _ (str_eq_iff job_type "vm_destroy"))
      (if_refuse _ _ (same_iff err.compensated) (
        if_refuse _ _ (same_iff err.manual_cleanup) (
          if_retry _ _ _ (same_iff err.compensation_retry) (
            if_iff _ _ _ (same_iff err.pod_create_cleanup_retry)
              (if_only _ _ (str_eq_iff job_type "pod_create")) (text_iff err job_type)))))
