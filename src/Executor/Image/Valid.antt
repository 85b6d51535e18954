-- ===== src/Executor/Image/Valid.antt =====
-- executor.rs: what an image that `update_agent` accepts looks like.
use hub_kubernetes_agent.Prelude.{
  ok-injective, err_ok, ◌≡◌, ◌≢◌, subst, ap, sym, ◌∙◌, String, some, true, ◌||◌, ◌==◌, ◌<>◌, trim,
  strip_prefix, rsplit_once, Result, ok, err, inl, inr, Option-cases, Bool-cases, if◌then◌else◌,
}
use hub_kubernetes_agent.Prelude.Decisions.{or_false, text_differs}
use hub_kubernetes_agent.Prelude.Splits.{strip_prefix_lem, rsplit_once_lem}
use hub_kubernetes_agent.Executor.Image.{
  update_agent_allowed_prefix, is_sha256, check_suffix, validate_update_agent_image,
}

-- A name that is not empty, behind the allowed prefix, and a tag that is not empty or a SHA-256 digest.
pub data IsAllowedImage : String → Type 0 where
  tagged :
      (image name tag : String)
      → image ≡ update_agent_allowed_prefix <> name <> ":" <> tag
      → name ≢ ""
      → tag ≢ ""
      → IsAllowedImage image
  digested :
      (image name digest : String)
      → image ≡ update_agent_allowed_prefix <> name <> "@sha256:" <> digest
      → is_sha256 digest ≡ true
      → IsAllowedImage image

tag_case :
    (image suffix result : String)
    → image ≡ update_agent_allowed_prefix <> suffix
    → (name tag : String) → rsplit_once suffix ":" ≡ some (name, tag)
    → ◌≡◌ {A = Result String String}
        (if (name == "") || (tag == "")
          then err "update_agent image must include non-empty image name and tag"
          else ok image)
        (ok result)
    → (result ≡ image) × IsAllowedImage image
tag_case image suffix result e name tag parted h = elim (Bool-cases ((name == "") || (tag == ""))) [
  | inl empty ↦ absurd (err_ok (rw empty at h))
  | inr full ↦ (
    sym (ok-injective (rw full at h)),
    tagged image name tag
        (e
          ∙ ap (λ t. update_agent_allowed_prefix <> t) (rsplit_once_lem suffix ":" name tag parted))
        (text_differs name "" (or_false full).0) (text_differs tag "" (or_false full).1),
  )
]

digest_case :
    (image suffix result : String)
    → image ≡ update_agent_allowed_prefix <> suffix
    → (name digest : String) → rsplit_once suffix "@sha256:" ≡ some (name, digest)
    → ◌≡◌ {A = Result String String}
        (if is_sha256 digest
          then ok image
          else err "update_agent image has invalid sha256 digest format")
        (ok result)
    → (result ≡ image) × IsAllowedImage image
digest_case image suffix result e name digest parted h = elim (Bool-cases (is_sha256 digest)) [
  | inr bad ↦ absurd (err_ok (rw bad at h))
  | inl good ↦ (
    sym (ok-injective (rw good at h)),
    digested image name digest
        (e
          ∙ ap (λ t. update_agent_allowed_prefix <> t)
              (rsplit_once_lem suffix "@sha256:" name digest parted))
        good,
  )
]

check_suffix-IsAllowedImage :
    (image suffix result : String)
    → image ≡ update_agent_allowed_prefix <> suffix
    → check_suffix image suffix ≡ ok result
    → (result ≡ image) × IsAllowedImage image
unfolding check_suffix
check_suffix-IsAllowedImage image suffix result e h =
    elim (Bool-cases ((suffix == "") || (suffix == "/"))) [
      | inl bare ↦ absurd (err_ok (rw bare at h))
      | inr more ↦ elim (Option-cases (rsplit_once suffix "@sha256:")) [
        | inl undigested ↦ elim (Option-cases (rsplit_once suffix ":")) [
          | inl untagged ↦ absurd (err_ok (rw (more, undigested, untagged) at h))
          | inr ((name, tag), parted) ↦
              tag_case image suffix result e name tag parted (rw (more, undigested, parted) at h)
        ]
        | inr ((name, digest), parted) ↦
            digest_case image suffix result e name digest parted (rw (more, parted) at h)
      ]
    ]

pub validate_update_agent_image-IsAllowedImage :
    (text image : String)
    → validate_update_agent_image text ≡ ok image
    → (image ≡ trim text) × IsAllowedImage image
unfolding validate_update_agent_image
validate_update_agent_image-IsAllowedImage text image h = elim (Bool-cases (trim text == "")) [
  | inl blank ↦ absurd (err_ok (rw blank at h))
  | inr full ↦ elim (Option-cases (strip_prefix (trim text) update_agent_allowed_prefix)) [
    | inl foreign ↦ absurd (err_ok (rw (full, foreign) at h))
    | inr (suffix, ours) ↦
        let checked =
          check_suffix-IsAllowedImage (trim text) suffix image
            (strip_prefix_lem (trim text) update_agent_allowed_prefix suffix ours)
            (rw (full, ours) at h) in
        (checked.0, subst IsAllowedImage (sym checked.0) checked.1)
  ]
]
