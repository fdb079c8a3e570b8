-- ===== src/Products.antt =====
-- Detection of products from the raw facts of a system (quipucords/fingerprinter/jboss_eap.py,
-- jboss_fuse.py and jboss_web_server.py).
pub mod Versions
pub mod Values
pub mod Eap
pub mod Fuse
pub mod WebServer
