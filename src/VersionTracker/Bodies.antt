-- ===== src/VersionTracker/Bodies.antt =====
-- tools/version-tracker/pkg/constants/constants.go: the texts of pull requests.
use eks_anywhere_build_tooli.Prelude.{ℕ, String, ◌<>◌}
use eks_anywhere_build_tooli.Prelude.Number.{decimal}

unfoldable pub eks_distro_upgrade_pull_request_body : String
eks_distro_upgrade_pull_request_body =
    "This PR bumps EKS Distro releases to the latest available release versions.\n"
    <> "\n/hold\n/area dependencies\n\n"
    <> "By submitting this pull request, I confirm that you can use, modify, copy, "
    <> "and redistribute this contribution, under the terms of your choice."

unfoldable pub default_upgrade_pull_request_body : String → String → String → String → String
default_upgrade_pull_request_body org repo current latest =
    "This PR bumps " <> org <> "/" <> repo
    <> " to the latest Git revision.\n\n[Compare changes](https://github.com/" <> org <> "/" <> repo
    <> "/compare/" <> current <> "..." <> latest <> ")\n[Release notes](https://github.com/" <> org
    <> "/" <> repo <> "/releases/" <> latest <> ")\n\n/hold\n/area dependencies\n\n"
    <> "By submitting this pull request, I confirm that you can use, modify, copy, "
    <> "and redistribute this contribution, under the terms of your choice."

unfoldable pub bottlerocket_upgrade_pull_request_body : String → String → String
bottlerocket_upgrade_pull_request_body current latest =
    "This PR bumps Bottlerocket releases to the latest Git revision.\n\n"
    <> "[Compare changes](https://github.com/bottlerocket-os/bottlerocket/compare/" <> current
    <> "..." <> latest
    <> ")\n[Release notes](https://github.com/bottlerocket-os/bottlerocket/releases/" <> latest
    <> ")\n\n/hold\n/area dependencies\n\n"
    <> "By submitting this pull request, I confirm that you can use, modify, copy, "
    <> "and redistribute this contribution, under the terms of your choice."

unfoldable pub combined_image_builder_bottlerocket_upgrade_pull_request_body :
    String → String → String → String → String
combined_image_builder_bottlerocket_upgrade_pull_request_body current latest current_bottlerocket
      latest_bottlerocket =
    "This PR bumps kubernetes-sigs/image-builder and Bottlerocket releases to the "
    <> "latest Git revision.\n\n" <> "[Compare changes for "
    <> "image-builder](https://github.com/kubernetes-sigs/image-builder/compare/" <> current
    <> "..." <> latest <> ")\n" <> "[Release notes for "
    <> "image-builder](https://github.com/kubernetes-sigs/image-builder/releases/" <> latest
    <> ")\n\n" <> "[Compare changes for "
    <> "Bottlerocket](https://github.com/bottlerocket-os/bottlerocket/compare/"
    <> current_bottlerocket <> "..." <> latest_bottlerocket <> ")\n" <> "[Release notes for "
    <> "Bottlerocket](https://github.com/bottlerocket-os/bottlerocket/releases/"
    <> latest_bottlerocket <> ")\n\n/hold\n/area dependencies\n\n"
    <> "By submitting this pull request, I confirm that you can use, modify, copy, "
    <> "and redistribute this contribution, under the terms of your choice."

unfoldable pub patches_comment_body : ℕ → ℕ → String → String → String
patches_comment_body applied total failed_patch failed_files =
    "# This pull request is incomplete!\n## Failed patch details\n**Only "
    <> decimal applied
    <> "/"
    <> decimal total
    <> " patches were applied!**\n"
    <> failed_patch
    <> "\nThe following files in the above patch did not apply successfully:\n"
    <> failed_files
    <> "\n\n"
    <> "The project being upgraded in this pull request needs changes to patches that "
    <> "cannot be handled automatically. A developer will need to regenerate the "
    <> "patches locally and update the pull request. In addition to patches, the "
    <> "checksums and attribution file(s) corresponding to the project will need to "
    <> "be updated."
