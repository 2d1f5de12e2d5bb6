-- ===== src/Lib.antt =====
-- The SeaweedFS CSI driver: the node plugin, the controller's parameters, and the mount service.
--
-- Kubelet asks the node plugin (pkg/driver) to stage a volume, to publish it to pods, and to take it
-- down again. The plugin asks the mount service (pkg/mountmanager), over a socket, to run one weed
-- mount process per volume, and binds the staged mount to the pods. A health monitor checks every
-- staged mount and puts a dead one back. The controller accepts new parameters for a volume, which
-- the node plugin reads when it stages the volume again.
--
-- Common holds what the parts share: dictionaries for Go's maps and sync.Map (Dict), the functions of
-- strings, strconv, path and base64 that the code calls (Text, Words, Chars, Decimal, Paths, Base64),
-- errors (Failure), and tests and lists.
--
-- Mount is the mount service:
--   Mount.Flags     pkg/mountmanager/mount_flags.go: filterMountArgs as filter_mount_args, and
--                   parseWeedMountHelp as parse_weed_mount_help (Flags.Help).
--   Mount.Output    processOutput and lineWriter of pkg/mountmanager/manager.go: add, summary, write
--                   and flush. A writer's loop runs on fuel, one more than the bytes it has; every
--                   round takes a byte at least.
--   Mount.Manager   Manager of pkg/mountmanager/manager.go: Mount, Unmount and watchProcessExit as
--                   mount, unmount and watch_process_exit on a table of entries and a numbering of
--                   the processes. A call holds its volume's lock throughout, so it is one step.
--                   Mount.Manager.Steps has the runs: calls, exits and watchers in any order.
--
-- Driver is the node plugin and the controller:
--   Driver.Host       the plugin's state (the volume map, and a history of its calls of the system with
--                     their answers) and a monad of actions with early errors. What the kernel, the
--                     mount service and the Kubernetes API answer is a function of the history.
--                     Host.Keeps and Host.Yields are the assertions about actions.
--   Driver.MountUtil  pkg/driver/mount_util_linux.go: stagingPathHealth, cleanupStaleStagingPath,
--                     checkMount and detachDeadMountPoint.
--   Driver.Volume     pkg/driver/volume.go: Stage, Publish, Quota, Unpublish, Unstage, and the counters.
--   Driver.Params     the validation of parameters in pkg/driver/controllerserver.go.
--   Driver.Node       pkg/driver/nodeserver.go: NodeStageVolume and NodePublishVolume (Node.Requests),
--                     stageNewVolume (Node.Staging), NodeUnpublishVolume, NodeUnstageVolume and
--                     NodeExpandVolume (Node.Release), with pkg/driver/unpublish_quarantine.go.
--   Driver.Health     pkg/driver/health_monitor.go: performVolumeHealthCheck (Health.Sweep),
--                     recoverVolumeAs (Health.Recovery) and the publish binds (Health.Binds).
--   Driver.Controller ControllerModifyVolume of pkg/driver/controllerserver.go, and DeleteVolume with the
--                     paging of emptyBucketChildren (Controller.Deletion). The filer is a parameter, and
--                     Lawful (Controller.Pages) says what the loop relies on; its fuel exceeds the
--                     number of children.
--                     Controller.Provision has CreateVolume with sanitizeVolumeIdS3, and the other
--                     requests. SHA-1 and the check of a bucket name are parameters; names are ASCII.
--   Driver.Store      pkg/driver/vacstore.go: Read, Write and Delete of filerVacStore over the rotation of
--                     roundTrip. What the filers answer, TLS files, tokens and JSON are parameters;
--                     Store.Law says what is relied on, and Store.Spec is the map that the store stands
--                     for. Volume IDs are ASCII there.
--   Driver.Quota      initialCollectionQuotaMB of pkg/driver/mounter.go.
--   Driver.Arguments  buildMountArgs and ValidateMountArgs of pkg/driver/mounter.go.
--   Driver.Caches     the sweep of cache directories in pkg/driver/utils.go: removeOrphanCacheDirs, as the
--                     directories it moves aside and then deletes. SHA-256, the clock and the answers
--                     of the system are parameters.
--   Driver.Stats      validateVolumeStatsPath of pkg/driver/volume_stats.go: the paths for which usage is
--                     reported.
--   Driver.Container  pkg/driver/container_remount_linux.go: the mount tables (Container.Entries), the
--                     processes of a pod (Processes), remountViaSetns (Remount) and the repair of a pod's
--                     mounts (Repair), over a history of the thread's calls of the kernel (Machine).
--   Driver.Runs       requests and health checks in any order, and Driver.Wellformed what they keep of the
--                     volume map.
--
-- Times are in nanoseconds and int32 counters keep their wrap-around. Requests and health checks of a
-- volume exclude each other by its mutex, so each is one step; the part of a health check that the code
-- makes before it takes the mutex belongs to the same step. Logging is left out.
--
-- In a mount table an octal escape of 128 or more stands for the character of that number. The node
-- plugin's calls of Driver.Container are one action in Driver.Host: a pod's repair there is an answer of
-- the system.
--
-- Not modelled: the requests of the node service that change no state (of NodeGetVolumeStats only
-- the check of the path is), and the recovery of the volume map at the start, which are planned; the
-- tickers; the sockets, the client of the filer and the Kubernetes client, which are input and
-- output; and Windows.
pub mod Common
pub mod Mount
pub mod Driver
