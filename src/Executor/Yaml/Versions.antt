-- ===== src/Executor/Yaml/Versions.antt =====
-- executor.rs: `split_api_version`, against the version that the client puts together again.
use hub_kubernetes_agent.Prelude.{
  ◌≡◌, refl, subst, sym, String, some, false, ◌==◌, ◌||◌, if◌then◌else◌, ◌<>◌, split_once,
  Bool-cases, Option-cases, inl, inr,
}
use hub_kubernetes_agent.Prelude.Decisions.{some-injective, or_false}
use hub_kubernetes_agent.Prelude.Splits.{split_once_lem}
use hub_kubernetes_agent.Executor.Yaml.{split_api_version}

-- How an API version is written: the core group has no name.
abbrev pub joined : String → String → String
joined group version = if group == "" then version else group <> "/" <> version

-- An API version that splits is the one that its group and version are written as, and the version
-- is not empty.
pub joined-split_api_version :
    (api_version group version : String)
    → split_api_version api_version ≡ some (group, version)
    → (joined group version ≡ api_version) × ((version == "") ≡ false)
unfolding split_api_version
joined-split_api_version api_version group version h =
    elim (Option-cases (split_once api_version "/")) [
      | inl whole ↦ elim (Bool-cases (api_version == "")) [
        | inl empty ↦ cc (rw (whole, empty, split_api_version) at h)
        | inr full ↦
            let parts : ("", api_version) ≡ (group, version) =
              some-injective (rw (whole, full, split_api_version) at h) in
            subst (λ q. (joined q.0 q.1 ≡ api_version) × ((q.1 == "") ≡ false)) parts (refl, full)
      ]
      | inr ((before, after), parted) ↦ elim (Bool-cases ((before == "") || (after == ""))) [
        | inl bad ↦ cc (rw (parted, bad, split_api_version) at h)
        | inr good ↦
            let parts : Path (String × String) (before, after) (group, version) =
              some-injective (rw (parted, good, split_api_version) at h) in
            let apart : ((before == "") ≡ false) × ((after == "") ≡ false) = or_false good in
            let whole : joined before after ≡ api_version =
              rw (apart.0) (sym (split_once_lem api_version "/" before after parted)) in
            subst (λ (q : String × String). (joined q.0 q.1 ≡ api_version) × ((q.1 == "") ≡ false))
              parts (whole, apart.1)
      ]
    ]
