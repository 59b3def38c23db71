-- ===== src/TtyRunner.antt =====
-- tools/tty_runner: a virtual machine is run on a pseudo terminal, and commands are typed into it.
pub mod Args
pub mod Threads
pub mod Session
pub mod Tests
