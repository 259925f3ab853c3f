-- ===== src/Lib.antt =====
-- Verification of the tessia base library, a Python library that manages hypervisors (HMC, z/VM,
-- KVM) and guests (Linux, CMS) of IBM Z. All paths below are relative to tessia/baselib.
--
-- Parts and files:
--   Python         how Python code is modelled: exceptions as values, methods as state passing
--   Prelude        shared names, tests, lists, `str` as a list of code points
--   Kvm.DeviceManager  hypervisors/kvm/target_device_manager.py (TargetDeviceManager)
--   Kvm.Templates  the xml templates of hypervisors/kvm
--   Kvm.Storage    hypervisors/kvm/storage/{disk,pool}.py (DiskBase, StoragePool)
--   Kvm.Iface      hypervisors/kvm/iface.py (Iface)
--   Kvm.Guest      hypervisors/kvm/guest.py (GuestKvm) and `hotplug` of guests/linux/linux.py
--   Kvm.Virsh      hypervisors/kvm/virsh.py (Virsh); Dominfo: the lines of `virsh dominfo`
--   Kvm.Hypervisor hypervisors/kvm/kvm.py (HypervisorKvm)
--   Volume         the parameters of a storage volume and the paths of activated ones
--   Hmc.Cpus, Hmc.Resources  processors, memory and updates of a guest in hypervisors/hmc/hmc.py
--   Hmc.Chunks     the pieces in which a command is sent; Console: a shell that reads them
--   Hmc.NetSetup   the commands that set up the network; Channels: those of an OSA card
--   Hmc.Boot       boot properties, the search for a storage volume, _load
--   Hmc.Commands, Hmc.Live  _send_commands; the OS channel, kexec and _do_netsetup
--   Hmc.Volumes    hypervisors/hmc/volume_descriptor.py
--   Hmc.Hypervisor hypervisors/hmc/hmc.py (HypervisorHmc): the session, start, stop, reboot
--   Hmc.Client, Hmc.Terminal  zhmcclient and the OS messages of a guest, parameters
--   Linux.Host     the system behind a connection: shells, commands and sleeps, a parameter
--   Linux.Timer    polling loops, `timer` of common/utils.py
--   Linux.Disk, Linux.Dasd, Linux.Fcp  guests/linux/storage/disk{,_dasd,_fcp}.py
--   Linux.Pool     guests/linux/storage/pool.py (StoragePool)
--   Cms            guests/cms/cms.py (GuestCms), without push_file; Cpus: the CPUs that are defined
--   Zvm            hypervisors/zvm/zvm.py (HypervisorZvm), on Cms; Netboot: the boot from the reader
--   S3270          common/s3270/s3270.py (S3270), over a connector; Connect: the loop of connect;
--                  Pipe: common/s3270/s3270pipeconnector.py (S3270PipeConnector)
--   Ssh.Shell      common/ssh/shell.py (SshShell); Extract, Reading, Endless: what a read returns
--   Linux.Gives    methods that end with a value, a RuntimeError or an error of the connection
--
-- HypervisorKvm logs in to the hypervisor's Linux and opens a Virsh on it; start shuts a running
-- guest down, activates the new GuestKvm, undefines and defines the domain and starts it. The pool
-- of the Linux driver activates each volume in a thread and waits for all of them.
--
-- A GuestKvm is activated (its volumes become devices of the hypervisor's Linux) and then turned
-- into xml: a new TargetDeviceManager hands out a device name and a number to each disk, then a
-- number to each interface.
--
-- HypervisorHmc finds its CPC and guest, changes the guest's resources, makes an LPAR active,
-- loads the guest and, for a network setup, logs in to the live image over the OS messages and
-- sends it commands.
--
-- HypervisorZvm drives the guest through its GuestCms: start stops it, logs in again, sets processors
-- and memory, attaches the volumes and interfaces and boots.
--
-- Not under src and so parameters: ElementTree (`XmlAttributes`), uuid4 (a text), the activation
-- of a guest's volumes on the hypervisor (a method on an arbitrary state), the shells of a
-- connection (`Host`), threads (`spawn`: how many checks find a thread alive, and what its
-- function ends with), and the clock and the files that Virsh uses (`Services`), zhmcclient
-- (`Client`), urlsplit, and the messages, regular expressions and clock of the console's driver
-- (`Terminal`), and the socket, clock and codec of a shell (`Socket`). Parts of the repository that
-- are interfaces here: the terminal of a CMS guest (`Cms.Terminal`) and the connector to an s3270
-- process (`Connector`), which is not yet filled with the pipe connector (its `Process` is a
-- parameter). Named hypotheses: `IsConnection` (a command gives a result, or raises
-- RuntimeError or an error of the connection) and `ClockRuns` (commands do not turn the clock
-- back, a sleep takes as long as it says), `TerminalRuns`, `SocketRuns` and `ConnectorRuns` (a read
-- or a command takes time), `StatusLaws` and `ActiveLaws` (what a status tells), `RaisesOwn`
-- (zhmcclient raises no KeyError), `Garbles` (UTF-8 has no byte 0xff). Not modelled: logging, the values that are formatted into the
-- message of an exception, validate_params, the queue of hypervisors/hmc/messages.py, the file
-- transfer of CMS, the terminal of s3270, and the ssh client: the drivers' `Host`
-- is not yet filled with an ssh shell.
--
-- Bounds: the loop of `get_valid_devno` has 0xffff rounds, more than there are numbers. The wait
-- of a pool has one pass more than its slowest thread is found alive. The wait for a shutdown has
-- timeout / 5 + 2 rounds of five seconds, eight for the 30 seconds that HypervisorKvm allows.
-- Sending commands has a round for each tick of its timeout of 600 seconds and one more, and so
-- have a read of an ssh shell and connect of S3270. Defining n CPUs has n + 1 rounds.
pub mod Prelude
pub mod Python
pub mod Volume
pub mod Linux
pub mod Kvm
pub mod Cms
pub mod Hmc
pub mod Ssh
pub mod S3270
pub mod Zvm
