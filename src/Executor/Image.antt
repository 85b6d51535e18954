-- ===== src/Executor/Image.antt =====
-- executor.rs: which images `update_agent` accepts.
pub mod Valid
use hub_kubernetes_agent.Prelude.{
  String, Option, none, some, Bool, true, false, ◌&&◌, ◌||◌, ◌==◌, if◌then◌else◌, ◌<>◌, nat_eq, all,
  codes, trim, strip_prefix, rsplit_once, byte_length, is_ascii_hexdigit, Result, ok, err,
}

abbrev pub update_agent_allowed_prefix : String
update_agent_allowed_prefix = "us-east1-docker.pkg.dev/sentinella-hub/kubernetes-agent/"

-- `digest.len() == 64 && digest.chars().all(…)`
unfoldable pub is_sha256 : String → Bool
is_sha256 digest = nat_eq (byte_length digest) 64 && all is_ascii_hexdigit (codes digest)

-- What follows the prefix.
unfoldable pub check_suffix : String → String → Result String String
unfolding rsplit_once is_sha256
check_suffix image suffix =
    if (suffix == "") || (suffix == "/")
    then err "update_agent image must include an image name after allowed prefix"
    else elim (rsplit_once suffix "@sha256:") [
      | some (name, digest) ↦
          if is_sha256 digest
          then ok image
          else err "update_agent image has invalid sha256 digest format"
      | none ↦ elim (rsplit_once suffix ":") [
        | some (name, tag) ↦
            if (name == "") || (tag == "")
            then err "update_agent image must include non-empty image name and tag"
            else ok image
        | none ↦ err "update_agent image must include either :<tag> or @sha256:<digest>"
      ]
    ]

unfoldable pub validate_update_agent_image : String → Result String String
unfolding trim strip_prefix check_suffix
validate_update_agent_image text =
    let image = trim text in
    if image == ""
    then err "update_agent image must be non-empty"
    else elim (strip_prefix image update_agent_allowed_prefix) [
      | none ↦
          err ("update_agent image must start with allowed prefix " <> update_agent_allowed_prefix)
      | some suffix ↦ check_suffix image suffix
    ]
