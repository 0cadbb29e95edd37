-- ===== src/Lib.antt =====
-- The core of three programs of the repository: the image builder, which checks the options of a build
-- and makes node images, the bootstrap container of Bottlerocket hosts, which turns a host into a node
-- of a cluster, and the version tracker, which upgrades the projects that the repository builds.
--
-- projects/aws/image-builder: `image-builder build` reads its flags, `ValidateInputs` checks them,
-- sets defaults and reads the provider's configuration, and the build runs make.
--   ImageBuilder/Types, Constants   builder/types.go, builder/files.go: the records and the names
--   ImageBuilder/Files              builder/files.go: `SameFilesProvided`, `ProcessAdditionalFiles`
--   ImageBuilder/Checks             cmd/build.go: the `validate...` functions
--   ImageBuilder/Options            `ValidateInputs` down to the air-gapped checks
--   ImageBuilder/Load, Validate     the rest of `ValidateInputs`: a configuration for each provider
--   ImageBuilder/Build/Names        builder/constants.go
--   ImageBuilder/Build/Setup        builder/utils.go: commands, files and URLs
--   ImageBuilder/Build/Bundle       builder/utils.go: the choice of the release and its bundle
--   ImageBuilder/Build/Manifests    builder/manifests.go
--   ImageBuilder/Build/Artifacts    builder/artifacts.go
--   ImageBuilder/Build/Commands, Providers, Image   builder/builder.go: `BuildImage`
--   ImageBuilder/Build/Release, Runs   theorems on the release and on the command of a build
-- The file system, `filepath.Abs` and `json.Unmarshal` are the parameter `Inputs`. The formats of the
-- build's files and its URLs are the parameter `Setup`; the archive that `createTarball` writes is one
-- copy call.
--
-- projects/aws/bottlerocket-bootstrap: `Bootstrap` waits for the host, takes a lock, reads the user
-- data and hands over to etcdadm or kubeadm; on Snow devices another `Bootstrap` runs at each boot.
--   Bottlerocket/UserData           pkg/utils/userdata.go, pkg/files/writer.go
--   Bottlerocket/Host               pkg/executables/executables.go, pkg/files/system.go
--   Bottlerocket/Waiters            pkg/utils/waiters.go
--   Bottlerocket/Pods               pkg/utils/pods.go, pkg/utils/parsers.go
--   Etcdadm                         pkg/etcdadm
--   Kubeadm/Utils, Init, Join, Run  pkg/kubeadm
--   Snow/Network, Discovery, System pkg/providers/snow/system, and the settings and file systems of
--                                   pkg/executables
--   Bootstrap                       pkg/bootstrap.go, main.go
--
-- tools/version-tracker: `upgrade` finds the latest revision of a project on GitHub or in an image
-- registry, brings the project's files up to date in a clone of the repository, commits and pushes
-- them, and opens or edits a pull request; `display` lists current and latest revisions.
--   VersionTracker/Types, Constants, Bodies   pkg/types, pkg/constants
--   VersionTracker/Slices, Commands           pkg/util
--   VersionTracker/Github, GoVersion, Pulls   pkg/github/github.go
--   VersionTracker/Git, EcrPublic             pkg/git/git.go, pkg/ecrpublic/ecrpublic.go
--   VersionTracker/EksDistro, Tracker,        pkg/commands/upgrade/upgrade.go: a file for each file
--     Updates, Bottlerocket                     that is brought up to date
--   VersionTracker/Upgrade                    `Run` of the same file
--   VersionTracker/Display                    pkg/commands/display/display.go
-- GitHub's API, go-git and commands are calls; the decoders of their answers, semantic versions,
-- regular expressions and YAML are the parameter `Tools`. A repository that is copied out of the list
-- of projects shares its versions with the list, so a write to the copy is a write to the list.
--
-- How code is modelled. Prelude/Outcome: a call returns a value or an error, or it ends the process
-- by `log.Fatal` or `os.Exit(1)`, or by a panic. Prelude/System: code that calls the machine is a
-- program, a function of the environment and of the history of calls made so far. An environment says
-- what each call gives back in each history, so it covers every behaviour of the world, and a theorem
-- for all environments holds for all of them. A history keeps the order of the calls, which is what
-- the results on sequences and repeated boots are about. What is printed is left out, and so is the
-- output of a command in the text of its error. Numbers are natural numbers where the code has counts
-- and ports, and integers where a flag or a file may hold a negative one. A text stands for bytes.
--
-- Bounds. A loop of the code that ends by a timer runs on `fuel`, a bound on its rounds, and ends
-- `unfinished` when it is used up; a timer is ready when the sleeps since its start add up to its
-- time. A wait of `t` seconds that sleeps for `s` in each round needs `t / s` rounds and one more.
-- A `select` on a timer and another goroutine is a look at the timer in each round.
--
-- The lists of GitHub are read page by page on `fuel`, which is enough if it is at least the number of
-- pages.
--
-- Not modelled: the command lines of the image builder's other commands, the reading of all
-- files in the background for EBS volumes, the clients of AWS, GitHub, git, netlink, dbus and YAML,
-- which are parameters or calls, and the command lines and logs of the version tracker.
pub mod Prelude
pub mod ImageBuilder
pub mod Bottlerocket
pub mod Etcdadm
pub mod Snow
pub mod Kubeadm
pub mod Bootstrap
pub mod VersionTracker
