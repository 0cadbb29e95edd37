-- ===== src/ImageBuilder/Validate/Defaults.antt =====
-- cmd/build.go: which files are added for an AMI.
use mathlib.Core.Logic.Or
use eks_anywhere_build_tooli.Prelude.{List}
