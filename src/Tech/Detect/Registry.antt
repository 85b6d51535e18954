-- ===== src/Tech/Detect/Registry.antt =====
-- tech.rs: an image is detected alike on every registry.
use hub_kubernetes_agent.Prelude.{String, some, and_then, ◌≡◌, ap, ◌∙◌, sym, true, false, ◌<>◌}
use hub_kubernetes_agent.Tech.Texts.{contains_char}
use hub_kubernetes_agent.Tech.Parts.{is_registry, strip_registry, split_tag, normalize_version}
use hub_kubernetes_agent.Tech.Parts.Split.{strip_registry-registry}
use hub_kubernetes_agent.Tech.Detect.{detect, detect_repo}

-- An image that is not behind a registry, strip_registry of which is the image itself, is detected
-- alike wherever it is copied to: in front of it any registry, which has no "/" and is "localhost" or
-- has a "." or a ":", leaves every field as it is.
pub detect-registry :
    (to_lowercase : String → String) (host image : String)
    → contains_char b'/' host ≡ false
    → is_registry host ≡ true
    → strip_registry image ≡ image
    → detect to_lowercase (host <> "/" <> image) ≡ detect to_lowercase image
unfolding detect
detect-registry to_lowercase host image h known local =
    ap
      (λ r.
        detect_repo to_lowercase (split_tag r).0
          (and_then (split_tag r).1 (λ t. some (normalize_version t))))
      (strip_registry-registry host image h known ∙ sym local)
