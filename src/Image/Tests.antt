-- ===== src/Image/Tests.antt =====
-- Runs of `parseDockerImageReference`, and the theorems at concrete references.
use containerhub.Prelude.{◌≡◌, refl, true, some, String, [], ◌∷◌, arith}
use containerhub.Prelude.Text.{non_empty, Free, split, cut_last, cut_first, has, join}
use containerhub.Image.Parts.{IsPart}
use containerhub.Image.RoundTrip.{Reference, IsReference, print, view, parse-print}
use containerhub.Image.{
  RepositoryPath, is_domain, reference_of, repository_path, tag_parts, parse_docker_image_reference,
}

parse_example : parse_docker_image_reference "registry.io:5000/team/app:1.2@sha256:ab" ≡ record {
  id = "ab";
  fullname = "registry.io:5000/team/app:1.2";
  domain = some "registry.io:5000";
  namespace = some "team";
  name = "app";
  tag = "1.2";
  name_with_tag = "app:1.2";
}
unfolding parse_docker_image_reference reference_of repository_path tag_parts split cut_last
    cut_first has is_domain join
parse_example = refl

abbrev app_path : RepositoryPath
app_path = record { domain = some "registry.io:5000"; namespace = "team" ∷ []; name = "app" }

abbrev app_reference : Reference
app_reference = record { path = app_path; tag = some "1.2"; digest = some ("sha256", "ab") }

segment_ok : {s : String} → non_empty s ≡ true → Free b'/' s → Free b'@' s → IsPart s
segment_ok f h k = record { filled = f; no_slash = h; no_at = k }

app_reference-IsReference : IsReference app_reference
unfolding is_domain has
app_reference-IsReference = record {
  parts = (
    segment_ok refl (omega arith) (omega arith),
    (
      segment_ok refl (omega arith) (omega arith),
      (segment_ok refl (omega arith) (omega arith), tt),
    ),
  );
  colon_free = (omega arith);
  domain = refl;
  tag = (omega arith);
  digest = (((omega arith), (omega arith)), (omega arith), refl);
}

parse-print_example : parse_docker_image_reference (print app_reference) ≡ view app_reference
parse-print_example = parse-print app_reference app_reference-IsReference
