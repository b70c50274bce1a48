-- ===== src/Tests.antt =====
-- Runs of the modelled code on concrete inputs, and the theorems at inputs that meet their
-- hypotheses.
mod Graph
mod Rsync
mod Sender
mod Transfer
mod Nss
mod Locks
mod Threadpool
mod Rod
mod Religion
mod Xml
mod Rbt
mod Kmp
mod Utility
