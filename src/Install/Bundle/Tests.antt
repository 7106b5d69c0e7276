-- ===== src/Install/Bundle/Tests.antt =====
-- An installation of a bundle on a small system.
