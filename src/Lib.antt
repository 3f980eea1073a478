-- ===== src/Lib.antt =====
-- engine-ci: a container-based build engine.
--
-- The engine collects groups of build descriptions, registers a pipeline of build steps, starts a small
-- HTTP key-value store for the containers, and runs the pipeline for every build of every group.
--
-- Files, with the code that each is about:
--  * Base and below: texts, lists, dictionaries and numbers that the parts share. `==` compares texts,
--    `eqb`, `ltb` and `leb` numbers, `⧺` appends texts.
--  * Cri/Platform: pkg/cri/types/platform.go. Conversion and Parse hold its laws.
--  * Cri/Manager: the interface of pkg/cri/manager.go with the data of pkg/cri/types, a record of operations
--    on a state of its own. Cri/Image: pkg/cri/utils/image.go. Cri/Mock and Cri/Mock/Runtime: the runtime
--    in memory of pkg/cri/critest/critest.go, one implementation of that record.
--  * Container/Build: pkg/container/build.go (Build, Custom, BuildType, Defaults, AsFlags) and the
--    EnvType of pkg/container/container.go. Defaulted, Flags and Properties hold its laws.
--  * Container/Secret: pkg/container/secret.go.
--  * Container/Action: what an operation of a Container is: a function of the container, the state of the
--    runtime and the log, which returns, fails, ends the process or panics.
--  * Container/Lifecycle: Create, Start, Stop, Wait, Exec, Commit and the copies of
--    pkg/container/container.go, with Created, Waited, Copied and Shortened. Container/Images: Pull, Tag,
--    Push, BuildImage, ImageExists and ensureImagesExists, with Ensured and Existing.
--    Container/Intermediate: BuildingContainer, BuildIntermidiateContainer, BuildCustomProdImage and Apply,
--    with Decision.
--  * Container/Tar: TarDirSequential and the walk of TarDirConcurrent. Container/Tar/Concurrent: its
--    goroutines, semaphore, wait group and channel as a transition system, with Indexed, Sound, Kept, Same
--    and Ends.
--  * Pipeline/Step: the data of pkg/build/build.go and the Stepper of pkg/build/wrapper.go.
--  * Pipeline/Insert: Add, AddToCategory, AddBefore, Replace and their kin. Filed and Grouped hold the
--    lemmas of Order; Relative is about insertRelativeToStep and Replace.
--  * Pipeline/Images: Images, uniqueStrings and GetCategoryOrder, with Unique and Categories.
--  * Pipeline/Run: Run and runAllMatchingBuilds as a transition system; Counts, Results and Progress
--    are about every schedule of its goroutines.
--  * Kv/Store, Kv/Token, Kv/Server, Kv/Client: pkg/kv/api.go and pkg/kv/client.go. Token/Accept,
--    Server/Access and Client/RoundTrip hold their laws.
--  * Engine/Registration: InitBuildSteps of cmd/engine.go. Engine/Groups: Engine, executeBuildGroup and
--    executeBuild as a transition system, with Outcome. Engine/Targets: Command.AddTarget and
--    Command.Run of cmd/build.go, with Resolve. Engine/Cache: SaveCache and LoadCache of cmd/cache.go as
--    a transition system, with Collected and Ends. Engine/Images: CollectImages and parseImageURI of
--    cmd/images.go, with Sorted and Uri.
--  * Utils/Environment: pkg/utils/environment.go, with Values.
--  * Svc/Git: pkg/svc/git.go, with Remote and Cached.
--  * Network/Address and Network/SshForward: pkg/network/localhost.go and pkg/network/sshforward.go.
--  * Doctor/Check, Doctor/Parallel and Doctor/Summary: pkg/doctor/check.go, doctor.go and result.go.
--    Doctor/Runtime, VolumeConfig, VolumeRun and VolumeTest: the checks of pkg/doctor/runtime.go and
--    volume.go over Doctor/Surroundings, with Advice and Cleanup.
--  * Logger/Message, Logger/Entry, Logger/Aggregator: Copy, LogEntry, processBatch and updateDisplay of
--    pkg/logger/terminal.go, with Last and Processed; processBatch is the loops of one call. Logger/Batches: BatchProcessor.start as a transition
--    system, with Order. Logger/Screen: pkg/logger/altscreen.go and ResettableOnce.
--  * Golang/Script: pkg/golang/buildscript/buildscript.go, with Artifacts. Golang/Alpine:
--    pkg/golang/alpine/golang.go, with Lint, Prod and Images. Golang/Variant: pkg/golang/debian and
--    pkg/golang/debiancgo.
--  * Maven: pkg/maven/maven.go and buildscript.go, with the mount of Cri/Socket (pkg/cri/utils/socket.go).
--  * Protobuf and Protobuf/Script: pkg/protobuf/protobuf.go and buildscript.go, with Packages.
--  * Discovery and below: pkg/autodiscovery. Project: the data and the conversions to builds. GoProjects,
--    PythonProjects, JavaProjects: the searches. Collection: discovery.go. Covered, Separate, Pom, Groups,
--    Found, Ended, Language and Generated hold their laws. Utils/Files: pkg/filesystem/file.go, with Search.
--    Container/Service: NewServiceBuild of pkg/container/build.go.
--  * Python/Builder: pkg/python/builder.go and buildscript.go, with Planned. Python/Step:
--    pkg/python/python.go. Zig and Zig/Script: pkg/zig/zig.go and buildscript.go.
--  * Tests and below: concrete runs.
--
-- How the parts meet: Engine/Registration fills a pipeline by the insertion of Pipeline/Insert; a target
-- of Engine/Targets runs that pipeline as in Pipeline/Run, whose answer is the outcome of a build in
-- Engine/Groups, and Discovery/Collection makes such groups from the file system; Kv/Client is run against
-- Kv/Server. The steps of Golang, Python, Zig, Maven and Protobuf call the operations of Container, and
-- these the record of Cri/Manager, which Cri/Mock fills; they log through Logger/Message. Protobuf/Script
-- works on the packages that Container/Service collects.
--
-- State: a pointer receiver that changes its object is a function from the old record to the new one;
-- nil is `none`; an error or a panic that the caller sees is `none` or a constructor of its own. A Go map
-- is an association list in which a key is looked up from the front. Goroutines are steps of a
-- transition system, each atomic piece one step, so that a theorem about reachable states is about every
-- schedule; their lists of identifiers stand for utils.IDStore. No definition runs on fuel: every loop is
-- structural.
--
-- Parameters: the container runtime with its state, what the steps of the pipeline do, the environment,
-- the base64 of registry credentials, the regular expression for domain names, the local Go installation
-- with the file system, the generated constants of the Dockerfiles and the parser of Dockerfiles,
-- HMAC-SHA256 with base64url, Go's decimal notation (whose round trip for an int64 is the hypothesis
-- IsDecimal), what net/http's outer ServeMux answers itself and how the inner one routes (hypothesis IsPlain
-- for keys that need no escape and whose path is clean), the random numbers, the clock, path.Dir, url.Parse,
-- the files that a walk visits and what they hold, the order in which Go ranges over a map of directories,
-- strconv.Atoi, what git and shell commands print, and what the host answers to the doctor.
--
-- Not modelled: the managers for docker, podman and the host, which call client libraries and programs;
-- the steps of the tools, which assemble configurations as those that are modelled do;
-- timeouts, contexts, the readiness probe and the terminal's output of the container operations; the pools and
-- times of the logger, and that two of its workers process batches at the same time; the plugin protocol,
-- and the other commands.
pub mod Network
pub mod Protobuf
pub mod Maven
pub mod Discovery
pub mod Python
pub mod Zig
pub mod Golang
pub mod Logger
pub mod Utils
pub mod Svc
pub mod Doctor
pub mod Base
pub mod Cri
pub mod Container
pub mod Pipeline
pub mod Kv
pub mod Engine
pub mod Tests
