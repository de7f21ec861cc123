-- ===== src/Retry/Phrases.antt =====
-- internal/provisioner/retryable.go: the texts ClassifyError looks for, and the job types it names.
use selfservice_api.Base.{List, [], ◌∷◌, String}

abbrev pub deterministic_phrases : List String
deterministic_phrases =
    "is not a valid installer ISO datastore path for source_type=iso" ∷ "folder '' not found"
    ∷ "resolves to multiple instances, please specify"
    ∷ "Failed to authenticate with the guest operating system" ∷ "template_id is required"
    ∷ "vm_name is required" ∷ "staging_network is required" ∷ "is required"
    ∷ "expected \"provisioning\"" ∷ "expected \"generalizing\"" ∷ "expected \"verifying\""
    ∷ "not found in database" ∷ "template_id not found" ∷ "incorrect user name or password"
    ∷ "permission denied" ∷ "Permission to perform this operation was denied" ∷ []

abbrev pub import_timeout_phrases : List String
import_timeout_phrases = "timedout" ∷ "operation timed out" ∷ "wait for nfc" ∷ "upload \"" ∷ []

abbrev pub stale_clone_phrase : String
stale_clone_phrase = "stale VM clone"

abbrev pub disk_format_phrase : String
disk_format_phrase = "virtual disk is either corrupted or not a supported format"

abbrev pub connection_phrases : List String
connection_phrases =
    "connection reset by peer" ∷ "connection refused" ∷ "EOF" ∷ "io: read/write on closed pipe"
    ∷ "context deadline exceeded" ∷ "read tcp" ∷ "write tcp" ∷ "NotAuthenticated"
    ∷ "not authenticated" ∷ "session is not authenticated" ∷ []

abbrev pub timeout_phrases : List String
timeout_phrases =
    "task timeout" ∷ "timed out waiting" ∷ "ServerFaultCode: A specified parameter was not correct"
    ∷ []

abbrev pub unavailable_phrases : List String
unavailable_phrases =
    "resource temporarily unavailable" ∷ "host is in maintenance mode" ∷ "all paths down" ∷ "APD"
    ∷ []

abbrev pub clone_job_types : List String
clone_job_types = "template_provision" ∷ "template_replica_build" ∷ "pod_create" ∷ "vm_add" ∷ []
