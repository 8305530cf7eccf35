-- ===== src/Jobs.antt =====
-- The jobs on tokens: modules/tokens/tokens-jobs*.service.ts.
pub mod Double
pub mod Outcome
pub mod Retry
pub mod Progress
pub mod Service
pub mod Schedule
pub mod VerifyMint
pub mod FetchMetadata
pub mod FetchOwnerAddress
pub mod UploadAsset
pub mod RefreshToken
