-- ===== src/Build.antt =====
-- src/build/: packaging the analysed project into an APK.
pub mod Signing
pub mod Pipeline
