-- ===== src/Lib.antt =====
-- Transient: virtual machines from images that are downloaded, built from an Imagefile, and kept in
-- two stores.
--
-- The parts and how they interact. A specification of an image (`ImageSpec`) names an image and how it
-- is retrieved; the backend store (`BackendImageStore`) retrieves it once and keeps it read-only
-- under its encoded name; the store of virtual machines (`VmStore`) makes a directory for each
-- machine, with overlays over backend images and a configuration, and loads it again. The builder
-- (`ImageBuilder`) reads an Imagefile, validates it, and makes a new backend image with the
-- image editor's guest. A machine runs (`TransientVm`) as a QEMU process (`QemuRunner`), which is asked
-- things over its monitor (`QmpClient`) and reached by SSH (`SshClient`); other processes find it by what
-- it writes under /proc (`find_transient_instances`). The image editor (`ImageEditor`) is such a guest
-- over one disk. The command line chooses the operation (`TransientArgs`): `create` stores its options as the
-- configuration of the machine, and `start` combines them with its own.
--
-- Which file models what:
--   Base: Python's side of the model. Texts are lists of code points (Base/Strings), outcomes are
--     values or exceptions (Base/Outcome), directories are association lists (Base/Dict), paths,
--     decimal numerals and UTF-8 are written out, and Base/Io has computations that act on an
--     environment and leave the trace of their actions.
--   Store, for transient/store.py: Name (`storage_safe_encode`, `storage_safe_decode`), Spec
--     (`ImageSpec`, the protocols' `matches`), Frontend (the names of files), State (the
--     directories and the programs that are called), Backend (`BackendImageStore`,
--     `BaseImageProtocol.retrieve_image`), Vm (`VmPersistentState`, `VmStore`). Their child modules
--     prove.
--   Build, for transient/build.py: Instruction (`_build_instruction` and the instructions'
--     constructors), Command (their commands and texts), Validate (`__validate`), Mounts
--     (`__partition_instructions_by_mount`), Builder (`ImageBuilder`).
--   Stream, for transient/utils.py: `StreamDecompressor`, `copy_with_progress` and `read_until`. A stream
--     is the list of what its reads give.
--   Configuration, for transient/configuration.py: how configurations are combined.
--   Cli, for transient/cli.py: the split of the command line, and the commands cp, stop, rm and image rm.
--   Qemu, for transient/qemu.py: Client (`QmpClient`, as a record of callbacks with the moves of its two
--     threads), Runner (`QemuRunner`, as actions on the process).
--   Machine, for transient/transient.py: Config (`TransientVm`), Arguments (`__qemu_added_args`), Exit and
--     Signal (`__qemu_sigchld_handler`), Run (`run` and what it calls). Each action's answer has the
--     action's own type.
--   Ssh, for transient/ssh.py: the command lines (`SshConfig`, `SshClient`, `scp`, `rsync`), Connection
--     (`__timed_connection`) and Port (`find_ssh_port_forward`).
--   Display, for transient/utils.py: `format_bytes`, `prompt_yes_no` and the user's directories.
--   Scan, for transient/scan.py: the tests of a process, Filters (what they mean), Matches (which processes
--     are given) and Search (the wait for one).
--   Editor, for transient/editor.py: `ImageEditor` as actions on QEMU and the guest, Guest (a command) and
--     Mounting (`_mount_root`).
--   Args, for transient/args.py (`TransientArgs`) and the table of commands and `main` of transient/cli.py,
--     and Fields (what its namespaces hold).
--   Args/Parsers has the tables of `define_parsers`, whose arguments are those of Args/Argument;
--     Configuration/Schema makes the schemas of them (`schema_from_argument_parser`), and
--     Configuration/Shape and RunShape say that they fit together.
--   Store/Protocols, for transient/store.py: `VagrantImageProtocol`, `HttpImageProtocol` and
--     `FileImageProtocol`, Choice (what is chosen) and Vagrant (where a box comes from).
--   Sshfs, for transient/sshfs.py: `SshfsThread`, and Slots (its semaphore, and what `wait_for_mount` tells).
--   Cli/Ssh, for transient/cli.py: `ssh_impl`, on the search of Scan.
--   Configuration/Load, for transient/configuration.py: `__load_config_file` and the errors' `__str__`;
--     Load/Lines is about the line numbers in them. Qemu/Connection, for transient/qemu.py:
--     `QmpClient.connect`.
--   Cli/Listing, for transient/cli.py: the tables of `ps_impl` and `image_ls_impl`, and Rows (what they list);
--     Store/Vm/Listing, for transient/store.py: `VmStore.vmstates`.
--   Errors, for transient/utils.py: `run_check_retcode`, and the text and the exit of its exceptions.
--   Machine/Announce, for transient/transient.py: `__prepare_proc_data` and `__build_qemu_environment`, read by
--     the search of Scan; Scan/Environ (how `_read_pid_environ` reads an environment).
--   Cli/Machines, for transient/cli.py: `create_impl`, `start_impl`, `run_impl`, `commit_impl`, `cp_impl` and
--     `image_build_impl`, and Started (a machine that is made and then started).
--   Qemu/Framing, for transient/qemu.py: `__send_msg`, `__recv_msg` and the loop of `__start` on the bytes of
--     the socket.
--   Base/Retry: the loop that `QmpClient.connect` in transient/qemu.py, `__timed_connection` in
--     transient/ssh.py and `find_transient_instances` in transient/scan.py have in common, with what ends it.
--   Store/Vm/Abstract, for transient/store.py: what `VmStore` promises, a finite map from names to
--     configurations, which Store/Vm/Refine relates to the directories.
--
-- How state corresponds. A store is a record of directories; an operation takes it and gives its
-- result with the store afterwards, also when it raises. What a lock waits for is a function
-- `meanwhile` on stores. The builder's effects are actions; a world, any function from the actions so
-- far to an answer or an exception, answers them.
--
-- Bounds and fuel: numbers are unbounded as Python's are. Four loops take fuel: the wait for a
-- guest, the search for an instance and the connection to the monitor, which are the loop of
-- Base/Retry and for which one unit more than the timeout is enough (in seconds for the first two,
-- in tenths of a second for the third), since their tries are two such units apart; and the loop of
-- `format_bytes`, for which one more than the size is. All other functions are structural.
--
-- Not modelled: the network, qemu-img, lark's parser, TOML, JSON, the checks of marshmallow, what
-- argparse makes of a command line, and the guest, which are parameters; file permissions beyond
-- the read-only flag; logging, progress bars and help texts; symbolic links; linux.py, which makes
-- a system call.
-- What fails in a directory, and what is left then, is a parameter: the listing of a machine's files in any
-- order, the rename of a new machine, the temporary directory behind it, and the removal of a machine, which may
-- stop in the middle. The temporary directory of a new virtual machine is not seen by others, so it is not in
-- the store. The handler of SIGCHLD (Machine/Signal) runs between any two steps of a run; Machine/Run is the
-- run in which it does nothing. A process that opens the socket of the monitor and never answers blocks the
-- client, which has no timeout there.
pub mod Args
pub mod Base
pub mod Build
pub mod Cli
pub mod Configuration
pub mod Display
pub mod Editor
pub mod Errors
pub mod Machine
pub mod Qemu
pub mod Scan
pub mod Ssh
pub mod Sshfs
pub mod Store
pub mod Stream
