-- ===== src/Dapps.antt =====
-- backend/routes/dapps.py: the registry of DApps, their installation from a manifest and from a URL,
-- their removal and the files that are served from them. A path is the list of its parts. What the
-- file system answers, `mkdtemp`, `urlparse`, `json.dumps`, Python's `str` and the clock are the record
-- `Host`; the texts of a URL are ASCII.
pub mod Entries
pub mod Pages
pub mod Handlers
pub mod Names
pub mod Cases
pub mod Registry
pub mod Serve
