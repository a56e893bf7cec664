-- ===== src/Services.antt =====
-- `service_to_fd` of src/adbd/services.c: which service a name asks for. What the operating system
-- then does for the service is an argument of the callers.
pub mod Run
use adbd.Base.{Bool, not, ◌&&◌, Option, none, some, [], if◌then◌else◌, Bytes, codes, drop}
use adbd.Transport.{starts_with, split_at}

pub data Namespace : Type 0 where
  reserved abstract filesystem : Namespace

-- The calls that `service_to_fd` makes. A text that `atoi` or `sscanf` reads is kept as it is.
pub data Service : Type 0 where
  tcp_client : Bytes → Service
  local_client : Namespace → Bytes → Service
  device_file : Bytes → Service
  framebuffer : Service
  recover : Bytes → Service
  jdwp_connection : Bytes → Service
  log_file : Bytes → Service
  shell_command : Bytes → Service
  login_shell : Service
  file_sync : Service
  remount : Service
  reboot : Bytes → Service
  restart_tcp : Bytes → Service
  restart_usb : Service

-- A `tcp:` name with another colon behind its port is refused.
abbrev tcp_service : Bytes → Option Bytes → Option Service
tcp_service port none = some (tcp_client port)
tcp_service port (some host) = none

abbrev shell_service : Bytes → Service
shell_service [] = login_shell
shell_service cmd = shell_command cmd

-- The ladder of prefixes, in the order of the source.
unfoldable pub service_of : Bool → Bool → Bytes → Option Service
unfolding starts_with split_at
service_of recovery host name =
    if starts_with (codes "tcp:") name
    then tcp_service (drop 4 name) (split_at b':' (drop 4 name)).1
    else if starts_with (codes "local:") name
    then some (local_client reserved (drop 6 name))
    else if starts_with (codes "localreserved:") name
    then some (local_client reserved (drop 14 name))
    else if starts_with (codes "localabstract:") name
    then some (local_client abstract (drop 14 name))
    else if starts_with (codes "localfilesystem:") name
    then some (local_client filesystem (drop 16 name))
    else if starts_with (codes "dev:") name
    then some (device_file (drop 4 name))
    else if starts_with (codes "framebuffer:") name
    then some framebuffer
    else if recovery && starts_with (codes "recover:") name
    then some (recover (drop 8 name))
    else if starts_with (codes "jdwp:") name
    then some (jdwp_connection (drop 5 name))
    else if starts_with (codes "log:") name
    then some (log_file (drop 4 name))
    else if not host && starts_with (codes "shell:") name
    then some (shell_service (drop 6 name))
    else if starts_with (codes "sync:") name
    then some file_sync
    else if starts_with (codes "remount:") name
    then some remount
    else if starts_with (codes "reboot:") name
    then some (reboot (drop 7 name))
    else if starts_with (codes "tcpip:") name
    then some (restart_tcp (drop 6 name))
    else if starts_with (codes "usb:") name
    then some restart_usb
    else none
