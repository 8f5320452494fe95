-- ===== src/Shell.antt =====
-- The fake shell: the file system cowrie/src/cowrie/shell/fs.py, the passwd files of
-- cowrie/src/cowrie/shell/pwd.py, and commands of cowrie/src/cowrie/commands/fs.py.
pub mod Paths
pub mod Normal
pub mod Resolved
pub mod Objects
pub mod Lookup
pub mod Names
pub mod Files
pub mod Attributes
pub mod Plain
pub mod Agree
pub mod Followed
pub mod Update
pub mod Replaced
pub mod Dropped
pub mod Made
pub mod Grown
pub mod Mkfile
pub mod Removed
pub mod Forgets
pub mod Remove
pub mod Mkdir
pub mod Commands
pub mod Rmdir
pub mod CameAndWent
pub mod Rm
pub mod TouchRm
pub mod Passwd
pub mod Users
pub mod Sample
mod Runs
mod CommandRuns
pub mod Split
mod Examples
