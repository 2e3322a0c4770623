-- ===== src/Lib.antt =====
-- The zylo container runtime: the registries of names and volumes, the networks with their addresses,
-- hosts files and servers of names, the ZyloFile, the images, and the life of a container.
--
-- The program. The daemon takes requests to start, stop and list containers. It keeps its state in
-- files: one registry of names, one of volumes, a JSON file for each network, a hosts file for each
-- network, and a container.json for each container. A start reads the ZyloFile, downloads the image,
-- makes the network, checks ports, volumes and the name, mounts the root of the container, allocates an
-- address, enters it in the hosts file and forwards the ports; a stop undoes these. Before each request the daemon clears away the containers whose process is gone, and at its start the networks
-- that nothing uses.
--
-- The files here and the code that they model:
--   Name       name/name.go: load_name_registry, register_name and so on, by the names of the code.
--              Name/Race splits a call at its two critical sections, as steps of two clients.
--   Volume     volume/volume.go, volume/registry.go, volume/types.go.
--   Hosts      hosts/manager.go: the text of a hosts file as its lines.
--   Network    network/types.go and network/config.go. Below it Ipam is network/ipam.go, Subnet is
--              findFreeSubnet of network/manager.go, and Create is network/methods.go with
--              EnsureDefaultNetwork of manager.go, restoreNetwork of utils.go and setupNetworkIPTables
--              of iptables.go, Nat is InitZyloNat of iptables.go with checkNAT of daemon/health.go over an
--              interface of iptables, and Restore is RestoreNetworks of config.go.
--   Dns        network/dns/cache.go and resolver.go: the cache of the server of names and handleDNS. The
--              messages of the DNS library are an interface, Messages.
--   Images     api/image.go (Sanitize, PullImage in Images/Pull, extractLayer in Images/Layer) and image
--              (Pull and Delete in Images/Commands, List in Images/Listing, formatBytes in Images/Format).
--   Resources  internal/container/resources: Mounts is mount.go, Users is users.go and metadata.go,
--              Log is log.go, and Devices is devices.go.
--   Zylofile   internal/container/zylo_file.go and loadConfig of internal/container/config.go.
--   Container  internal/container/container.go and list.go. Below it Ports is ports.go, Find is
--              findContainer, Listing is ps of list.go with logs.go and volumeList, Down is down with CleanupNetwork of network.go, Cleanup is
--              RuntimeCleanup, Lifecycle is checkName of name.go and Down of lifecycle.go, Volumes
--              is volumes.go with checkVolumes of config.go, Setup is setup.go with newContainer, Start
--              is SetupNetwork and AttachNetwork of network.go with state.go, Start/Run is run and
--              cleanup of lifecycle.go, and Up is Up of lifecycle.go with checkNetwork and the checks
--              of config.go. An Up passes the state on from its checks to the setup, to the
--              registration of the name and to the run, whose cleanup calls the same `down` that a stop
--              calls. Init is ContainerInit of exec.go, the process inside the container, as a sequence
--              of calls of the system; what it reads of its variables goes through an interface, Environs,
--              and Init/Main is main of cmd/zylod/zylod.go, which `run` starts again for a container.
--   Daemon     daemon/cleanup.go (its containers in Daemon/Containers) and network/sync.go. Below it
--              Startup is Up and Down of daemon/daemon.go, which call the cleaning, Network/Nat,
--              Network/Create, Network/Restore and the synchronisation in turn; Router is router of
--              server.go, one request as an action on all that the daemon keeps, with the operations of
--              Container and Images as its cases; and Health is health.go with Status of daemon.go.
--   Client     cmd/zylo/zylo.go: the request for a command line, and the choice of an operation in router
--              of daemon/server.go. Client/Flags is the part of Go's package flag that it uses, and
--              Client/Wrapped is the second client of internal/client.
--   Identifiers internal/identifiers/hash.go.
--   Integer    strconv.Atoi and Itoa on the 64-bit int of Go.
--   Paths      the constants of global/global.go and filepath.Join.
--   Disk, Table, Text and Prelude are shared: files, maps, texts, and the monad of actions that keep
--   what was written before an error.
--
-- How the code is modelled. A function that changes files is an action: it takes the state and returns
-- its result, or an error, together with the new state. A file of JSON is held as the value that it
-- decodes to, or as absent, unreadable or malformed. Each write has an outcome that the environment
-- chooses: written, refused at one of its steps, or torn, which leaves a file that does not decode.
-- A map of Go is an association list in the order in which a range would visit it. A text is the list
-- of its bytes, and white space is that of ASCII. What the system answers (the time, identifiers,
-- whether a process runs or a port is open, which commands succeed, routes and interfaces) is an
-- argument: a record of outcomes, named Fate where a call has several.
--
-- Bounds. The loop of AllocateIP has 253 rounds, for the numbers 2 to 254, and the loop of findFreeSubnet
-- 254 rounds, for 1 to 254: as many as the code makes, so no result is lost. A line of a ZyloFile must be
-- shorter than the scanner's buffer of 65536 bytes. The wait for a process runs over the list of events
-- that it hears, and has no result where the list ends first.
--
-- The loop of formatBytes has 6 rounds of fuel, enough below 2 ^ 63. The wait for the start has the 50
-- rounds of the code.
--
-- Not modelled: the registry of images, what unmounting leaves, the listeners of the server of names,
-- the loop of the daemon that takes connections and requests that overlap, the exec of the second
-- client in internal/client, links and iptables beyond what they answer and the list of forwarded
-- ports, the mounts that MS_REC brings along from below a source, and what is printed beside the rows of the listings.
pub mod Prelude
pub mod Text
pub mod Disk
pub mod Name
pub mod Volume
pub mod Hosts
pub mod Table
pub mod Network
pub mod Paths
pub mod Zylofile
pub mod Identifiers
pub mod Integer
pub mod Container
pub mod Daemon
pub mod Client
pub mod Dns
pub mod Resources
pub mod Images
