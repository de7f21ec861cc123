-- ===== src/Retry/Classify.antt =====
-- internal/provisioner/retryable.go: ClassifyError, with its tests in the order of the code.
use selfservice_api.Base.{
  ℕ, List, [], ◌∷◌, Option, none, some, Bool, true, false, ◌&&◌, ◌||◌, String, str_eq,
  if◌then◌else◌,
}
use selfservice_api.Retry.{JobError, codes, to_lower, contains, contains_any, contains_any_folded}
use selfservice_api.Retry.Phrases.{
  deterministic_phrases, import_timeout_phrases, stale_clone_phrase, disk_format_phrase,
  connection_phrases, timeout_phrases, unavailable_phrases, clone_job_types,
}

abbrev pub transient_clone : String
transient_clone = "transient_clone"

abbrev pub connection : String
connection = "connection"

abbrev pub timeout : String
timeout = "timeout"

abbrev pub unavailable : String
unavailable = "unavailable"

abbrev pub cleanup : String
cleanup = "cleanup"

abbrev pub no_retry : Bool × String
no_retry = (false, "")

abbrev pub retry : String → Bool × String
retry reason = (true, reason)

unfoldable pub is_clone_job : List String → String → Bool
is_clone_job [] job_type = false
is_clone_job (t ∷ ts) job_type = str_eq job_type t || is_clone_job ts job_type

-- The loops over the phrases for connections, time limits and missing resources.
unfoldable pub classify_transient : List ℕ → Bool × String
classify_transient s =
    if contains_any_folded s connection_phrases
    then retry connection
    else if contains_any s timeout_phrases
    then retry timeout
    else if contains_any_folded s unavailable_phrases
    then retry unavailable
    else no_retry

unfoldable pub classify_clone : List ℕ → String → Bool × String
classify_clone s job_type =
    if contains s (codes disk_format_phrase)
    then (if is_clone_job clone_job_types job_type then retry transient_clone else no_retry)
    else classify_transient s

unfoldable pub classify_vcenter : JobError → String → Bool × String
classify_vcenter err job_type =
    if err.placement_unavailable
    then retry unavailable
    else if err.capacity_release
    then retry unavailable
    else if contains err.text (codes stale_clone_phrase)
    then retry cleanup
    else classify_clone err.text job_type

unfoldable pub import_timed_out : JobError → String → Bool
import_timed_out err job_type =
    str_eq job_type "image_import"
    && (err.job_lease_lost || contains_any (to_lower err.text) import_timeout_phrases)

-- The part of ClassifyError that reads the error's text, deterministic failures first.
unfoldable pub classify_text : JobError → String → Bool × String
classify_text err job_type =
    if contains_any_folded err.text deterministic_phrases
    then no_retry
    else if import_timed_out err job_type
    then retry timeout
    else classify_vcenter err job_type

unfoldable pub classify_marked : JobError → String → Bool × String
classify_marked err job_type =
    if err.blocked_by_mutator
    then (if str_eq job_type "vm_destroy" then retry cleanup else no_retry)
    else if err.compensated
    then no_retry
    else if err.manual_cleanup
    then no_retry
    else if err.compensation_retry
    then retry cleanup
    else if err.pod_create_cleanup_retry
    then (if str_eq job_type "pod_create" then retry cleanup else no_retry)
    else classify_text err job_type

unfoldable pub classify_error : Option JobError → String → Bool × String
classify_error none job_type = no_retry
classify_error (some err) job_type = classify_marked err job_type
