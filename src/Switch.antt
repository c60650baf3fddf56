-- ===== src/Switch.antt =====
-- scripts/python/lib/switch_common.py: the connection to a switch. The class Cisco has the methods
-- and the command texts of SwitchCommon as they are.
use cluster_genesis.Base.{
  Result, Text, Option, some, none, List, Bool, true, false, ◌+◌, ◌++◌, zero, suc,
}
use cluster_genesis.Exec.{Exec}
pub mod Send
pub mod Dry
pub mod Commands
pub mod Answers
pub mod Ports
pub mod Allowed
pub mod Trunk
pub mod Vlans
pub mod Interfaces
pub mod Summary
pub mod Channels
pub mod Passive
pub mod PassiveErrors
pub mod Locking
pub mod Reports
pub mod Created
pub mod Prefixes
pub mod Ranges
pub mod AllowedNumbers
pub mod AllowedRanges
pub mod Seen
pub mod Found
pub mod Configured
pub mod Promises

-- What the lock file and the SSH connection do, in the state `D` of the switch and of its other
-- users: an attempt of up to five seconds to take the lock, the lock's release, and the run of a
-- command of the class SSH in scripts/python/lib/ssh.py, which gives the text that the switch answers,
-- or raises: an SSH_Exception without a connection, and an exit where the command cannot be sent.
-- The name of the host is known, the lock file is there, and the answer is UTF-8.
pub record Remote (D : Type 0) : Type 0 where
  pub try_lock : D → Bool × D
  pub release : D → D
  pub exec_cmd : Text → D → Result Text × D

-- A switch object: its mode, the file that a passive switch writes, and the switch itself.
pub record Session (D : Type 0) : Type 0 where
  pub mode : Text
  pub outfile : Text
  pub device : D
